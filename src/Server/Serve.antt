-- ===== src/Server/Serve.antt =====
-- What a server sends, request by request.
use mixsim.Prelude.{
  pos, ℕ, ◌+◌, ◌%◌, ◌^◌, ◌≤◌, ◌<◌, ◌≡◌, refl, ap, false, List, [], ◌∷◌, arith, length, All, ◌++◌,
  Bool-cases, inl, inr,
}
use mixsim.CText.{codes}
use mixsim.Server.{
  print_int, time_text, time_server, test_provider, Sent, Action, bound, receives, sends, exits,
  Round, is_negative, answer, serve,
}

-- The packets among the actions.
abbrev pub sent_packets : List Action → List Sent
sent_packets [] = []
sent_packets (bound p ∷ as_) = sent_packets as_
sent_packets (receives n d ∷ as_) = sent_packets as_
sent_packets (sends p ∷ as_) = p ∷ sent_packets as_
sent_packets (exits ∷ as_) = sent_packets as_

-- Neither call of the round fails.
pub record IsFine (r : Round) : Type 0 where
  pub received_ok : is_negative r.received ≡ false
  pub sent_ok : is_negative r.sent ≡ false

-- The text of the time, its length, and the name of the request.
abbrev pub time_data : Round → Sent
time_data r = record {
  type_ = 6;
  name = r.name;
  nlen = r.nlen;
  content = codes "current time: " ++ print_int r.now;
  dlen = length (codes "current time: " ++ print_int r.now);
}

abbrev pub answers : List Round → List Sent
answers [] = []
answers (r ∷ rs) = time_data r ∷ answers rs

-- Over rounds without a failed call the server sends one answer for each request, in their order,
-- and counts them modulo 2^32.
pub serve-answers :
    (rs : List Round) (nlen dlen cnt : ℕ)
    → All IsFine rs
    → cnt < 2 ^ 32
    → (sent_packets (serve nlen dlen cnt rs).0 ≡ answers rs)
      × ((serve nlen dlen cnt rs).1 ≡ (cnt + length rs) % 2 ^ 32)
unfolding serve answer time_text
serve-answers [] nlen dlen cnt h word = (refl, omega arith)
serve-answers (r ∷ rs) nlen dlen cnt (ok, oks) word =
    let (same, count) = serve-answers rs r.nlen r.dlen ((cnt + 1) % 2 ^ 32) oks (omega arith) in
    rw (ok.received_ok, ok.sent_ok) (ap (λ l. time_data r ∷ l) same, omega (arith, count))

-- The lengths that the calls of irecv offer are at most the given ones.
abbrev pub OffersAtMost : (nlen dlen : ℕ) → List Action → Type 0
OffersAtMost n d [] = Unit
OffersAtMost n d (bound p ∷ as_) = OffersAtMost n d as_
OffersAtMost n d (receives k l ∷ as_) = (k ≤ n) × (l ≤ d) × OffersAtMost n d as_
OffersAtMost n d (sends p ∷ as_) = OffersAtMost n d as_
OffersAtMost n d (exits ∷ as_) = OffersAtMost n d as_

-- No irecv delivers more than it was offered.
abbrev pub Delivers : (nlen dlen : ℕ) → List Round → Type 0
Delivers n d [] = Unit
Delivers n d (r ∷ rs) = (r.nlen ≤ n) × (r.dlen ≤ d) × Delivers r.nlen r.dlen rs

OffersAtMost-serve :
    (rs : List Round) (nlen dlen cnt n d : ℕ)
    → nlen ≤ n
    → dlen ≤ d
    → Delivers nlen dlen rs
    → OffersAtMost n d (serve nlen dlen cnt rs).0
unfolding serve
OffersAtMost-serve [] nlen dlen cnt n d h g s = tt
OffersAtMost-serve (r ∷ rs) nlen dlen cnt n d h g (a, b, s) =
    let rest =
      OffersAtMost-serve rs r.nlen r.dlen ((cnt + 1) % 2 ^ 32) n d (omega arith) (omega arith) s in
    elim (Bool-cases (is_negative r.received)) [
      | inl bad ↦ rw bad (h, g, tt)
      | inr fine ↦ elim (Bool-cases (is_negative r.sent)) [
        | inl bad ↦ rw (fine, bad) (h, g, tt)
        | inr good ↦ rw (fine, good) (h, g, rest)
      ]
    ]

-- After a request that is received and answered, when no irecv delivers more than it was offered,
-- the server offers every later irecv no more room than the request took.
pub serve-OffersAtMost :
    (r : Round) (rs : List Round) (nlen dlen cnt : ℕ)
    → IsFine r
    → Delivers nlen dlen (r ∷ rs)
    → (later : List Action) × ((serve nlen dlen cnt (r ∷ rs)).0
        ≡ receives nlen dlen ∷ sends (answer r) ∷ later)
      × OffersAtMost r.nlen r.dlen later
unfolding serve
serve-OffersAtMost r rs nlen dlen cnt ok (a, b, s) = (
  (serve r.nlen r.dlen ((cnt + 1) % 2 ^ 32) rs).0,
  rw (ok.received_ok, ok.sent_ok),
  OffersAtMost-serve rs r.nlen r.dlen ((cnt + 1) % 2 ^ 32) r.nlen r.dlen (omega arith) (omega arith)
      s,
)

-- time_server and test_provider, whose socket and bind succeed, first bind their prefix,
-- /mixsim/real/time and /Rpi-1/lab1038/info/about; then, over any rounds without a failed call,
-- the packets that they send are one Data for each request, in their order, with the name of the
-- request and the text 'current time: ' and the time of that round, printed by %d, as content.
pub time_server-answers :
    (sock ret : ℕ) (rs : List Round)
    → All IsFine rs
    → (later : List Action) × (time_server (pos sock) (pos ret) rs
        ≡ bound (codes "/mixsim/real/time") ∷ later)
      × (test_provider (pos sock) (pos ret) rs ≡ bound (codes "/Rpi-1/lab1038/info/about") ∷ later)
      × (sent_packets later ≡ answers rs)
unfolding time_server test_provider
time_server-answers sock ret rs h =
    let (same, count) = serve-answers rs 1024 2048 0 h (omega arith) in
    ((serve 1024 2048 0 rs).0, refl, refl, same)
