-- ===== src/Server.antt =====
-- The servers of time behind NIP sockets, demo/mix-request/time_server.c and
-- adaptor/testprovider.c, which differ in their prefix; and the client
-- demo/mix-request/consumer.c.
--
-- The results of the system calls are arguments. What a program does is the list of its actions.
pub mod Serve
mod Tests
use mixsim.Prelude.{
  ℕ, zero, suc, ◌+◌, ◌-◌, ◌%◌, ◌^◌, Bool, true, false, List, [], ◌∷◌, ◌++◌, ltb, if◌then◌else◌, ℤ,
  pos, negsuc, length,
}
use mixsim.CText.{codes, print_uint}
use mixsim.NipAdaptor.{type_interest, type_data}

-- A packet that isend is called with.
pub record Sent : Type 0 where
  pub type_ : ℕ
  pub name : List ℕ
  pub nlen : ℕ
  pub content : List ℕ
  pub dlen : ℕ

-- An `irecv` with the lengths that the caller offers, an `isend`, a `bind` to a prefix, and
-- `exit(1)`.
pub data Action : Type 0 where
  bound : List ℕ → Action
  receives : (nlen dlen : ℕ) → Action
  sends : Sent → Action
  exits : Action

-- One round of calls: the results of `irecv`, `time` and `isend`.
pub record Round : Type 0 where
  pub received : ℤ
  pub name : List ℕ
  pub nlen : ℕ
  pub dlen : ℕ
  pub now : ℕ
  pub sent : ℤ

abbrev pub is_negative : ℤ → Bool
is_negative (pos n) = false
is_negative (negsuc n) = true

-- `%d` of a `time_t`.
unfoldable pub print_int : ℕ → List ℕ
print_int v =
    if ltb (v % 2 ^ 32) (2 ^ 31)
    then print_uint (v % 2 ^ 32)
    else b'-' ∷ print_uint (2 ^ 32 - v % 2 ^ 32)

-- `sprintf(content, "current time: %d", time(NULL))`
unfoldable pub time_text : ℕ → List ℕ
unfolding print_int
time_text now = codes "current time: " ++ print_int now

unfoldable pub answer : Round → Sent
unfolding time_text
answer r = record {
  type_ = type_data;
  name = r.name;
  nlen = r.nlen;
  content = time_text r.now;
  dlen = length (time_text r.now);
}

-- The loop of the server, as often as there are rounds: its actions and `cnt`. The lengths in
-- `ibuf` are what the last `irecv` left there.
unfoldable pub serve : (nlen dlen cnt : ℕ) → List Round → List Action × ℕ
unfolding answer
serve nlen dlen cnt [] = ([], cnt)
serve nlen dlen cnt (r ∷ rs) =
    let rest = serve r.nlen r.dlen ((cnt + 1) % 2 ^ 32) rs in
    if is_negative r.received
    then (receives nlen dlen ∷ exits ∷ [], cnt)
    else (if is_negative r.sent
        then (receives nlen dlen ∷ sends (answer r) ∷ exits ∷ [], cnt)
        else (receives nlen dlen ∷ sends (answer r) ∷ rest.0, rest.1))

-- `main` of time_server.c, with the results of `socket` and `bind`.
unfoldable pub time_server : (sock ret : ℤ) → List Round → List Action
unfolding serve
time_server sock ret rs =
    if is_negative sock
    then exits ∷ []
    else (if is_negative ret
        then bound (codes "/mixsim/real/time") ∷ exits ∷ []
        else bound (codes "/mixsim/real/time") ∷ (serve 1024 2048 0 rs).0)

-- `main` of testprovider.c.
unfoldable pub test_provider : (sock ret : ℤ) → List Round → List Action
unfolding serve
test_provider sock ret rs =
    if is_negative sock
    then exits ∷ []
    else (if is_negative ret
        then bound (codes "/Rpi-1/lab1038/info/about") ∷ exits ∷ []
        else bound (codes "/Rpi-1/lab1038/info/about") ∷ (serve 1024 2048 0 rs).0)

abbrev pub reqname : List ℕ
reqname = codes "/Rpi-1/lab1038/info/about/10Mfile.txt/3333"

-- `main` of consumer.c, with the results of `socket`, `isend` and `irecv`. The content of the
-- Interest is not initialised.
unfoldable pub consumer : (sock ierr derr : ℤ) → (content : List ℕ) (dlen : ℕ) → List Action
consumer sock ierr derr content dlen =
    if is_negative sock
    then exits ∷ []
    else (let request = sends (record {
      type_ = type_interest;
      name = reqname;
      nlen = length reqname;
      content = content;
      dlen = dlen;
    }) in
        if is_negative ierr
        then request ∷ exits ∷ []
        else (if is_negative derr
            then request ∷ receives 1024 4096 ∷ exits ∷ []
            else request ∷ receives 1024 4096 ∷ []))
