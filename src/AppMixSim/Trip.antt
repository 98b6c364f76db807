-- ===== src/AppMixSim/Trip.antt =====
-- Packets that one simulation sends as datagrams, and another makes again: directly, and across
-- the adaptors and the NIP network between them.
use mixsim.Prelude.{
  ℕ, zero, suc, ◌+◌, ◌%◌, ◌^◌, ◌≤◌, ◌<◌, ◌≡◌, refl, ap, sym, ◌∙◌, true, false, none, some, List, [],
  ◌∷◌, leb, length, take, take_all, tabulate, get_elem?, All, arith, some_eq,
}
use mathlib.Core.Path.{subst}
use mixsim.Buffer.{Buffer, nlen, dlen, copy_at, set_dlen}
use mixsim.Buffer.Copy.{copy_at-inside, copy_at-below, nlen-copy_at, dlen-copy_at, dlen-set_dlen}
use mixsim.Fifo.{Fifo}
use mixsim.World.{World, Malloc}
use mixsim.NipAdaptor.{IsockBuf, nip_data_in, nip_interest_in}
use mixsim.NipAdaptor.Arrival.{IsInterest, HoldsName, nip_interest_in-HoldsName}
use mixsim.NipAdaptor.Content.{Contains, IsData, free_buffer, nip_data_in-Contains}
use mixsim.Ndn.{Ndn, Interest, Data}
use mixsim.AppMixSim.{
  AppMixSim, Datagram, interest_udpfd, data_udpfd, buf_at, name_text, put_name, packet_name,
  write_name, send_ndn_interest, send_ndn_data, send_udp_interest, send_udp_data, send_udp_nack,
  send_ndn_nack,
}
use mixsim.AppMixSim.Names.{
  Spells, IsByte, tabulate-get_elem?, put_name-Spells, set_dlen-Spells, split_name-Spells,
}

get_elem?-tabulate : (n : ℕ) (f : ℕ → ℕ) (i : ℕ) → i < n → get_elem? (tabulate n f) i ≡ some (f i)
get_elem?-tabulate zero f i h = absurd (omega arith)
get_elem?-tabulate (suc n) f zero h = refl
get_elem?-tabulate (suc n) f (suc i) h = get_elem?-tabulate n (λ j. f (suc j)) i (omega arith)

get_elem?-bound : (xs : List ℕ) (i x : ℕ) → get_elem? xs i ≡ some x → i < length xs
get_elem?-bound [] i x h = cc
get_elem?-bound (y ∷ xs) zero x h = omega arith
get_elem?-bound (y ∷ xs) (suc i) x h = omega (arith, get_elem?-bound xs i x h)

-- The buffer holds a name with its number, and a content behind it.
pub record Carries (b : Buffer) (name : List ℕ) (seq : ℕ) (content : List ℕ) : Type 0 where
  pub spells : Spells b (name_text name seq)
  pub data_long : dlen b ≡ length content
  pub data_at : (i x : ℕ) → get_elem? content i ≡ some x → b (8 + nlen b + i) ≡ x

put_content-Carries :
    (b : Buffer) (name : List ℕ) (seq : ℕ) (content : List ℕ)
    → Spells b (name_text name seq)
    → length content < 2 ^ 32
    → Carries
        (copy_at (8 + length (name_text name seq)) content (set_dlen (length content) b))
        name
        seq
        content
put_content-Carries b name seq content s small =
    let t = set_dlen-Spells b (length content) (name_text name seq) s in
    let long =
      nlen-copy_at (8 + length (name_text name seq)) content (set_dlen (length content) b)
        (omega arith)
      ∙ t.long in
    record {
      spells = record {
        long = long;
        at = λ i x e.
            let h = get_elem?-bound (name_text name seq) i x e in
            copy_at-below (8 + length (name_text name seq)) content _ (8 + i) (omega arith)
            ∙ t.at i x e;
      };
      data_long =
          dlen-copy_at (8 + length (name_text name seq)) content _ (omega arith)
          ∙ dlen-set_dlen b (length content) small;
      data_at = λ i x e.
          let o : 8
                + nlen (
                    copy_at (8 + length (name_text name seq)) content (set_dlen (length content) b))
                + i
              ≡ 8 + length (name_text name seq) + i =
            omega (arith, long) in
          ap (copy_at (8 + length (name_text name seq)) content (set_dlen (length content) b)) o
          ∙ copy_at-inside (8 + length (name_text name seq)) content _ i x e;
    }

-- What irecv delivers when isend sent the name and the content of a buffer.
pub record IsSent (b : Buffer) (r : IsockBuf) : Type 0 where
  pub name_len : r.nlen ≡ nlen b
  pub name_bytes : r.name ≡ tabulate (nlen b) (buf_at b 0)
  pub data_len : r.dlen ≡ dlen b
  pub data_bytes : r.content ≡ tabulate (dlen b) (buf_at b (nlen b))

-- The buffer on the other side holds the same name.
HoldsName-Spells :
    (b b' : Buffer) (r : IsockBuf) (text : List ℕ)
    → Spells b text
    → IsSent b r
    → HoldsName b' r
    → Spells b' text
HoldsName-Spells b b' r text c t h = record {
  long = h.name_len ∙ t.name_len ∙ c.long;
  at = λ i x e.
      let k = get_elem?-bound text i x e in
      let g : get_elem? r.name i ≡ some (buf_at b 0 i) =
        rw t.name_bytes (get_elem?-tabulate (nlen b) (buf_at b 0) i (omega (arith, c.long))) in
      let o : 8 + 0 + i ≡ 8 + i = omega arith in
      h.name_at i (buf_at b 0 i) (omega (arith, t.name_len, c.long)) g ∙ ap b o ∙ c.at i x e;
}

-- The buffer on the other side holds the same.
Contains-Carries :
    (b b' : Buffer) (r : IsockBuf) (name : List ℕ) (seq : ℕ) (content : List ℕ)
    → Carries b name seq content
    → IsSent b r
    → Contains b' r
    → Carries b' name seq content
Contains-Carries b b' r name seq content c t h = record {
  spells =
      HoldsName-Spells b b' r (name_text name seq) c.spells t
        (record { name_len = h.name_len; name_at = h.name_at });
  data_long = h.data_len ∙ t.data_len ∙ c.data_long;
  data_at = λ i x e.
      let k = get_elem?-bound content i x e in
      let g : get_elem? r.content i ≡ some (buf_at b (nlen b) i) =
        rw t.data_bytes
          (get_elem?-tabulate (dlen b) (buf_at b (nlen b)) i (omega (arith, c.data_long))) in
      let o : 8 + nlen b' + i ≡ 8 + r.nlen + i = omega (arith, h.name_len) in
      ap b' o
      ∙ h.data_at i (buf_at b (nlen b) i) (omega (arith, t.data_len, c.data_long)) g
      ∙ c.data_at i x e;
}

module _ (N : Ndn) where
  -- A name of the library: a prefix that its URI stands for, which fits, and a number of at most
  -- nine digits.
  pub record IsPrintable (n p : N.Name) (seq : ℕ) : Type 0 where
    pub made : n ≡ N.append_sequence_number p seq
    pub canonical : N.from_uri (N.to_uri p) ≡ p
    pub bytes : All IsByte (N.to_uri p)
    pub fits : length (name_text (N.to_uri p) seq) ≤ 1023
    pub small : seq < 10 ^ 9

  module _ (n p : N.Name) (seq : ℕ) (h : IsPrintable n p seq) where
    write_name-put_name :
        (b : Buffer)
        → write_name N n b ≡ some (put_name (N.to_uri p) seq b, length (name_text (N.to_uri p) seq))
    unfolding write_name
    write_name-put_name b =
        let seq_of = N.to_sequence_number-append p seq in
        let prefix_of = N.get_prefix-append p seq in
        let word : seq % 2 ^ 32 ≡ seq = let g = h.small in omega arith in
        rw (h.made, seq_of, prefix_of, word)

    packet_name-Spells :
        (b : Buffer) → Spells b (name_text (N.to_uri p) seq) → packet_name N b ≡ some n
    unfolding packet_name
    packet_name-Spells b s =
        let split =
          split_name-Spells b (N.to_uri p) seq s h.bytes (let g = h.fits in omega arith) h.small in
        rw (split, h.canonical, ← h.made)

    send_ndn_data-Carries :
        (s : AppMixSim N) (b : Buffer) (content : List ℕ)
        → Carries b (N.to_uri p) seq content
        → length (name_text (N.to_uri p) seq) + length content ≤ 2040
        → (d : Data N) × (send_ndn_data N s b ≡ some d) × (d.name ≡ n) × (d.content ≡ content)
    unfolding send_ndn_data
    send_ndn_data-Carries s b content c room =
        let name_ = packet_name-Spells b c.spells in
        let long = c.spells.long in
        let inside : leb (nlen b + dlen b) 2040 ≡ true = let g = c.data_long in ground arith in
        let bytes : tabulate (dlen b) (buf_at b (nlen b)) ≡ content =
          rw c.data_long (tabulate-get_elem? content (buf_at b (nlen b)) c.data_at) in
        (
          record {
            name = n;
            freshness = 1000;
            content = tabulate (dlen b) (buf_at b (nlen b));
            signature_info = record { type_ = 255; key_locator = none };
            signature_value = N.var_number s.m_signature;
          },
          rw (name_, inside),
          refl,
          bytes,
        )

    send_udp_interest-Spells :
        (s : AppMixSim N) (i : Interest N) (namedata : Buffer)
        → i.name ≡ n
        → (d : Datagram) × (send_udp_interest N s i namedata ≡ some d)
          × Spells d.payload (name_text (N.to_uri p) seq)
    unfolding send_udp_interest
    send_udp_interest-Spells s i namedata e = (
      record {
        socket = data_udpfd;
        to = s.m_interest_raddr;
        payload = set_dlen 0 (put_name (N.to_uri p) seq namedata);
      },
      rw (e, write_name-put_name namedata),
      set_dlen-Spells _ 0 _ (put_name-Spells (N.to_uri p) seq namedata h.fits),
    )

    -- An Interest crosses the NIP network between two adaptors: for an Interest under a name that
    -- the library makes of a prefix and a number below 10^9, whose URI has no NUL, reads as the
    -- same prefix and fits with the number into 1023 bytes, whose datagram one simulation sent,
    -- and when irecv delivers the name of that datagram to the far adaptor, which has a free
    -- buffer, nip_interest_in puts it in the buffer and the buffer at the end of the queue for the
    -- simulation, and the simulation that gets the buffer makes an Interest with the same name,
    -- its own nonce, no prefix match and a lifetime of 2000.
    pub send_ndn_interest-nip_interest_in :
        (s : AppMixSim N) (i : Interest N) (namedata : Buffer) (g : Datagram) (F : Fifo)
        (w : World F.Queue) (r : IsockBuf) (old : Buffer) (m : Malloc) (nonce : ℕ)
        → i.name ≡ n
        → send_udp_interest N s i namedata ≡ some g
        → IsSent g.payload r
        → IsInterest F w r old
        → (w' : World F.Queue) × (b' : Buffer) × (nip_interest_in F m r w ≡ some w')
          × (w'.buffers (free_buffer F w) ≡ some b')
          × (w'.realtosim_interest_queue ≡ F.enqueue w.realtosim_interest_queue (free_buffer F w))
          × (send_ndn_interest N nonce b'
              ≡ some
                  (record { name = n; nonce = some nonce; can_be_prefix = false; lifetime = 2000 }))
    unfolding send_ndn_interest
    send_ndn_interest-nip_interest_in s i namedata g F w r old m nonce e sent t d =
        let (g', sent', c') = send_udp_interest-Spells s i namedata e in
        let same : g' ≡ g = some_eq (sym sent' ∙ sent) in
        let c = subst (λ (x : Datagram). Spells x.payload (name_text (N.to_uri p) seq)) same c' in
        let (w', b', run, there, holds, queued) = nip_interest_in-HoldsName F w r old m d in
        (
          w',
          b',
          run,
          there,
          queued,
          rw (packet_name-Spells b' (HoldsName-Spells g.payload b' r _ c t holds)),
        )

    send_udp_data-Carries :
        (s : AppMixSim N) (d : Data N) (namedata : Buffer)
        → d.name ≡ n
        → length (name_text (N.to_uri p) seq) + length d.content ≤ 2040
        → (g : Datagram) × (send_udp_data N s d namedata ≡ some g)
          × Carries g.payload (N.to_uri p) seq d.content
    unfolding send_udp_data
    send_udp_data-Carries s d namedata e room =
        let word : length d.content % 2 ^ 32 ≡ length d.content = omega arith in
        let inside : leb (length (name_text (N.to_uri p) seq) + length d.content) 2040 ≡ true =
          ground arith in
        let all : take (length d.content) d.content ≡ d.content =
          take_all _ d.content (omega arith) in
        (
          record {
            socket = interest_udpfd;
            to = s.m_data_raddr;
            payload =
                copy_at (8 + length (name_text (N.to_uri p) seq)) d.content
                  (set_dlen (length d.content) (put_name (N.to_uri p) seq namedata));
          },
          rw (e, write_name-put_name namedata, word, inside, all),
          put_content-Carries _ (N.to_uri p) seq d.content
              (put_name-Spells (N.to_uri p) seq namedata h.fits) (omega arith),
        )

    -- For a refusal of an Interest under a name that the library makes of a prefix and a number
    -- below 10^9, whose URI has no NUL, reads as the same prefix and fits with the number into
    -- 1023 bytes, SendUDPNack sends a datagram of which SendNDNNack would make a refusal with that
    -- name, but SendNDNData makes Data with that name and no content.
    pub send_ndn_data-send_udp_nack :
        (s s' : AppMixSim N) (i fresh : Interest N) (namedata : Buffer)
        → i.name ≡ n
        → (g : Datagram) × (send_udp_nack N s i namedata ≡ some g)
          × (send_ndn_nack N fresh g.payload ≡ some (record fresh { name = n }))
          × ((d : Data N) × (send_ndn_data N s' g.payload ≡ some d)
              × (d.name ≡ n)
              × (d.content ≡ []))
    unfolding send_udp_nack send_ndn_nack
    send_ndn_data-send_udp_nack s s' i fresh namedata e =
        let named = put_name (N.to_uri p) seq namedata in
        let spells = put_name-Spells (N.to_uri p) seq namedata h.fits in
        let carries : Carries (set_dlen 0 named) (N.to_uri p) seq [] = record {
          spells = set_dlen-Spells named 0 _ spells;
          data_long = dlen-set_dlen named 0 (omega arith);
          data_at = λ k x b. cc;
        } in
        (
          record { socket = interest_udpfd; to = s.m_data_raddr; payload = set_dlen 0 named },
          rw (e, write_name-put_name namedata),
          rw (packet_name-Spells _ carries.spells),
          send_ndn_data-Carries s' (set_dlen 0 named) [] carries (let f = h.fits in omega arith),
        )

    -- Data cross the NIP network between two adaptors: for Data under a name that the library
    -- makes of a prefix and a number below 10^9, whose URI has no NUL, reads as the same prefix
    -- and fits with the number into 1023 bytes, with the content in 2040 bytes, whose datagram one
    -- simulation sent, and when irecv delivers the name and the content of that datagram to the
    -- far adaptor, which has a free buffer, nip_data_in puts them in the buffer, and the
    -- simulation that gets the buffer makes Data with the same name and content.
    pub send_ndn_data-nip_data_in :
        (s s' : AppMixSim N) (d : Data N) (namedata : Buffer) (g : Datagram) (F : Fifo)
        (w : World F.Queue) (r : IsockBuf) (old : Buffer) (m : Malloc)
        → d.name ≡ n
        → length (name_text (N.to_uri p) seq) + length d.content ≤ 2040
        → send_udp_data N s d namedata ≡ some g
        → IsSent g.payload r
        → IsData F w r old
        → (w' : World F.Queue) × (b' : Buffer) × (nip_data_in F m r w ≡ some w')
          × (w'.buffers (free_buffer F w) ≡ some b')
          × ((d' : Data N) × (send_ndn_data N s' b' ≡ some d')
              × (d'.name ≡ n)
              × (d'.content ≡ d.content))
    send_ndn_data-nip_data_in s s' d namedata g F w r old m e room sent t h =
        let (g', sent', c') = send_udp_data-Carries s d namedata e room in
        let same : g' ≡ g = some_eq (sym sent' ∙ sent) in
        let c = subst (λ (x : Datagram). Carries x.payload (N.to_uri p) seq d.content) same c' in
        let (w', b', run, there, holds, queued) =
          nip_data_in-Contains F w r old h m
            (omega (arith, t.name_len, t.data_len, c.spells.long, c.data_long)) in
        (
          w',
          b',
          run,
          there,
          send_ndn_data-Carries s' b' d.content
              (Contains-Carries g.payload b' r (N.to_uri p) seq d.content c t holds) room,
        )
