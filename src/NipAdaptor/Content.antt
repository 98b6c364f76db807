-- ===== src/NipAdaptor/Content.antt =====
-- nip_data_in at a data packet that irecv delivered, with a buffer of the free list.
use mixsim.Prelude.{
  ℕ, zero, suc, ◌+◌, ◌%◌, ◌^◌, ◌≤◌, ◌<◌, ◌≡◌, ◌≢◌, refl, ◌∙◌, true, false, none, some, List, [],
  ◌∷◌, arith, leb, ◌==◌, length, get_elem?, take, inl, inr, Bool-cases,
}
use mixsim.Buffer.{Buffer, copy_at, nlen, dlen, set_nlen, set_dlen, nlen-set_dlen}
use mixsim.Buffer.Copy.{
  copy_at-below, copy_at-inside, nlen-copy_at, dlen-copy_at, nlen-set_nlen, dlen-set_dlen,
  set_dlen-behind,
}
use mixsim.Fifo.{Fifo}
use mixsim.World.{World, Malloc, put, read_bytes, update_buffer, take_buffer}
use mixsim.NipAdaptor.{IsockBuf, copy_content, nip_data_in}

pub get_elem?-take :
    (n : ℕ) (xs : List ℕ) (i x : ℕ)
    → i < n
    → get_elem? xs i ≡ some x
    → get_elem? (take n xs) i ≡ some x
get_elem?-take zero xs i x h e = absurd (omega arith)
get_elem?-take (suc n) [] i x h e = cc
get_elem?-take (suc n) (y ∷ xs) zero x h e = e
get_elem?-take (suc n) (y ∷ xs) (suc i) x h e = get_elem?-take n xs i x (omega arith) e

-- The bytes of a packet in a buffer: the lengths, the name, and the content behind it.
abbrev pub filled : IsockBuf → Buffer → Buffer
filled r b =
    copy_at (8 + r.nlen) (take r.dlen r.content)
      (set_dlen r.dlen (copy_at 8 (take r.nlen r.name) (set_nlen r.nlen b)))

-- A buffer that holds the packet.
pub record Contains (b : Buffer) (r : IsockBuf) : Type 0 where
  pub name_len : nlen b ≡ r.nlen
  pub data_len : dlen b ≡ r.dlen
  pub name_at : (i x : ℕ) → i < r.nlen → get_elem? r.name i ≡ some x → b (8 + i) ≡ x
  pub data_at : (i x : ℕ) → i < r.dlen → get_elem? r.content i ≡ some x → b (8 + r.nlen + i) ≡ x

pub filled-Contains :
    (r : IsockBuf) (b : Buffer) → r.nlen < 2 ^ 16 → r.dlen < 2 ^ 32 → Contains (filled r b) r
filled-Contains r b short small = record {
  name_len =
      nlen-copy_at (8 + r.nlen) _ _ (omega arith)
      ∙ nlen-set_dlen _ r.dlen
      ∙ nlen-copy_at 8 _ _ (omega arith)
      ∙ nlen-set_nlen b r.nlen (omega arith);
  data_len = dlen-copy_at (8 + r.nlen) _ _ (omega arith) ∙ dlen-set_dlen _ r.dlen small;
  name_at = λ i x h e.
      copy_at-below (8 + r.nlen) _ _ (8 + i) (omega arith)
      ∙ set_dlen-behind _ r.dlen (8 + i) (omega arith)
      ∙ copy_at-inside 8 _ _ i x (get_elem?-take r.nlen r.name i x h e);
  data_at =
      λ i x h e. copy_at-inside (8 + r.nlen) _ _ i x (get_elem?-take r.dlen r.content i x h e);
}

module _ (F : Fifo) where
  abbrev pub free_buffer : World F.Queue → ℕ
  free_buffer w = (F.dequeue w.freebuf_list).0

  -- A data packet with its arrays, when the first buffer of the free list holds `b`.
  pub record IsData (w : World F.Queue) (r : IsockBuf) (b : Buffer) : Type 0 where
    pub ne_null : free_buffer w ≢ 0
    pub there : w.buffers (free_buffer w) ≡ some b
    pub no_nack : r.d_type ≢ 1
    pub short : r.nlen < 2 ^ 16
    pub name_there : r.nlen ≤ length r.name
    pub small : r.dlen < 2 ^ 32
    pub data_there : r.dlen ≤ length r.content

  -- After the four writes to the buffer.
  abbrev pub packed : World F.Queue → IsockBuf → Buffer → World F.Queue
  packed w r b =
      let p = free_buffer w in
      let named = copy_at 8 (take r.nlen r.name) (set_nlen r.nlen b) in
      record w {
        freebuf_list = (F.dequeue w.freebuf_list).1;
        realtosim_data_queue = F.enqueue w.realtosim_data_queue p;
        buffers =
            put (put (put (put w.buffers p (set_nlen r.nlen b)) p named) p (set_dlen r.dlen named))
              p (filled r b);
      }

  module _ (w : World F.Queue) (r : IsockBuf) (b : Buffer) (d : IsData w r b) (m : Malloc) where
    pub nip_data_in-packed : r.nlen + r.dlen ≤ 2040 → nip_data_in F m r w ≡ some (packed w r b)
    unfolding nip_data_in copy_content take_buffer update_buffer read_bytes
    nip_data_in-packed fits =
        let there : (free_buffer w == 0) ≡ false = let h = d.ne_null in ground arith in
        let own : (free_buffer w == free_buffer w) ≡ true = ground arith in
        let data_ : (r.d_type == 1) ≡ false = let h = d.no_nack in ground arith in
        let word : r.dlen % 2 ^ 32 ≡ r.dlen = let h = d.small in omega arith in
        let read : leb r.nlen (length r.name) ≡ true = let h = d.name_there in ground arith in
        let read' : leb r.dlen (length r.content) ≡ true = let h = d.data_there in ground arith in
        let inside : leb r.nlen 2040 ≡ true = ground arith in
        let inside' : leb (r.nlen + r.dlen) 2040 ≡ true = ground arith in
        rw (there, d.there, read, inside, own, data_, word, read', own, inside', own)

    pub packed-filled : (packed w r b).buffers (free_buffer w) ≡ some (filled r b)
    packed-filled = ground arith

    -- A data packet whose name and content fit into 2040 bytes together is put in the first buffer
    -- of the free list, lengths, name and content, and the buffer goes to the end of the queue of
    -- data for the clients.
    pub nip_data_in-Contains :
        r.nlen + r.dlen ≤ 2040
        → (w' : World F.Queue) × (b' : Buffer) × (nip_data_in F m r w ≡ some w')
          × (w'.buffers (free_buffer w) ≡ some b')
          × Contains b' r
          × (w'.realtosim_data_queue ≡ F.enqueue w.realtosim_data_queue (free_buffer w))
    nip_data_in-Contains fits = (
      packed w r b,
      filled r b,
      nip_data_in-packed fits,
      packed-filled,
      filled-Contains r b d.short d.small,
      refl,
    )

    -- A data packet whose name and content are longer than 2040 bytes together makes nip_data_in
    -- write outside of the buffer.
    pub nip_data_in-overflow : 2040 < r.nlen + r.dlen → nip_data_in F m r w ≡ none
    unfolding nip_data_in copy_content take_buffer update_buffer read_bytes
    nip_data_in-overflow long =
        let there : (free_buffer w == 0) ≡ false = let h = d.ne_null in ground arith in
        let own : (free_buffer w == free_buffer w) ≡ true = ground arith in
        let data_ : (r.d_type == 1) ≡ false = let h = d.no_nack in ground arith in
        let word : r.dlen % 2 ^ 32 ≡ r.dlen = let h = d.small in omega arith in
        let read : leb r.nlen (length r.name) ≡ true = let h = d.name_there in ground arith in
        let read' : leb r.dlen (length r.content) ≡ true = let h = d.data_there in ground arith in
        let outside : leb (r.nlen + r.dlen) 2040 ≡ false = ground arith in
        elim (Bool-cases (leb r.nlen 2040)) [
          | inl fits ↦ rw (there, d.there, read, fits, own, data_, word, read', own, outside)
          | inr long_name ↦ rw (there, d.there, read, long_name)
        ]
