-- ===== src/NipAdaptor/Arrival.antt =====
-- nip_interest_in at an Interest that irecv delivered, with a buffer of the free list.
use mixsim.Prelude.{
  ℕ, ◌+◌, ◌≤◌, ◌<◌, ◌≡◌, ◌≢◌, refl, ◌∙◌, true, false, some, arith, leb, ◌==◌, length, get_elem?,
  take,
}
use mixsim.Buffer.{Buffer, copy_at, nlen, set_nlen, set_dlen, nlen-set_dlen}
use mixsim.Buffer.Copy.{copy_at-inside, nlen-copy_at, nlen-set_nlen, set_dlen-behind}
use mixsim.Fifo.{Fifo}
use mixsim.World.{World, Malloc, put, read_bytes, update_buffer, take_buffer}
use mixsim.NipAdaptor.{IsockBuf, nip_interest_in}
use mixsim.NipAdaptor.Content.{get_elem?-take, free_buffer}

-- A buffer that holds the name.
pub record HoldsName (b : Buffer) (r : IsockBuf) : Type 0 where
  pub name_len : nlen b ≡ r.nlen
  pub name_at : (i x : ℕ) → i < r.nlen → get_elem? r.name i ≡ some x → b (8 + i) ≡ x

abbrev named : IsockBuf → Buffer → Buffer
named r b = set_dlen 0 (copy_at 8 (take r.nlen r.name) (set_nlen r.nlen b))

named-HoldsName : (r : IsockBuf) (b : Buffer) → r.nlen ≤ 2040 → HoldsName (named r b) r
named-HoldsName r b short = record {
  name_len =
      nlen-set_dlen _ 0 ∙ nlen-copy_at 8 _ _ (omega arith) ∙ nlen-set_nlen b r.nlen (omega arith);
  name_at = λ i x h e.
      set_dlen-behind _ 0 (8 + i) (omega arith)
      ∙ copy_at-inside 8 _ _ i x (get_elem?-take r.nlen r.name i x h e);
}

module _ (F : Fifo) where
  -- An Interest with its name, when the first buffer of the free list holds `b`.
  pub record IsInterest (w : World F.Queue) (r : IsockBuf) (b : Buffer) : Type 0 where
    pub ne_null : free_buffer F w ≢ 0
    pub there : w.buffers (free_buffer F w) ≡ some b
    pub fits : r.nlen ≤ 2040
    pub name_there : r.nlen ≤ length r.name

  -- After the two writes to the buffer.
  abbrev stored : World F.Queue → IsockBuf → Buffer → World F.Queue
  stored w r b =
      let p = free_buffer F w in
      record w {
        freebuf_list = (F.dequeue w.freebuf_list).1;
        realtosim_interest_queue = F.enqueue w.realtosim_interest_queue p;
        buffers = put (put w.buffers p (set_nlen r.nlen b)) p (named r b);
      }

  pub nip_interest_in-HoldsName :
      (w : World F.Queue) (r : IsockBuf) (b : Buffer) (m : Malloc)
      → IsInterest w r b
      → (w' : World F.Queue) × (b' : Buffer) × (nip_interest_in F m r w ≡ some w')
        × (w'.buffers (free_buffer F w) ≡ some b')
        × HoldsName b' r
        × (w'.realtosim_interest_queue ≡ F.enqueue w.realtosim_interest_queue (free_buffer F w))
  unfolding nip_interest_in take_buffer update_buffer read_bytes
  nip_interest_in-HoldsName w r b m d =
      let there : (free_buffer F w == 0) ≡ false = let h = d.ne_null in ground arith in
      let own : (free_buffer F w == free_buffer F w) ≡ true = ground arith in
      let read : leb r.nlen (length r.name) ≡ true = let h = d.name_there in ground arith in
      let inside : leb r.nlen 2040 ≡ true = let h = d.fits in ground arith in
      (
        stored w r b,
        named r b,
        rw (there, d.there, read, inside, own) refl,
        rw own refl,
        named-HoldsName r b d.fits,
        refl,
      )
