-- ===== src/AppMixSim/Clock.antt =====
-- The ticks of the application and the two clocks.
use mixsim.Prelude.{
  ℕ, zero, suc, ◌+◌, ◌*◌, ◌%◌, ◌^◌, ◌≤◌, ◌≡◌, refl, ◌∙◌, Option, some, List, [], ◌∷◌, ◌++◌, arith,
  ◌>>=◌, ℤ, pos, negsuc, length, All, sym, ap, sub_ℕ,
}
use mathlib.Core.Path.{subst}
use mixsim.Buffer.{Buffer}
use mixsim.Ndn.{Ndn, Packet, interest, data_packet}
use mixsim.AppMixSim.{
  AppMixSim, Timeval, analyze_time_diff, schedule, receive, send_ndn_interest, send_ndn_data,
  schedule_next_tick,
}

-- A time in microseconds.
abbrev pub micros : Timeval → ℕ
micros t = t.tv_sec * 1000000 + t.tv_usec

module _ (N : Ndn) where
  -- What one tick reads: a nonce, the datagrams, the bytes that lay in `recv_buf`, and the clock.
  pub record Reading : Type 0 where
    pub nonce : ℕ
    pub on_interest : List ℕ
    pub on_data : List ℕ
    pub recv_buf : Buffer
    pub curr : Timeval

  -- Ticks one after the other, each as late in virtual time as the one before it says.
  unfoldable pub run_ticks :
      AppMixSim N → (vtime : ℕ) → List Reading → Option (AppMixSim N × List (Packet N) × ℕ)
  unfolding schedule_next_tick
  run_ticks s vtime [] = some (s, [], vtime)
  run_ticks s vtime (r ∷ rs) = do
    t ← schedule_next_tick N s r.nonce r.on_interest r.on_data r.recv_buf vtime r.curr
    u ← run_ticks t.0 (vtime + t.2) rs
    some (u.0, t.1 ++ u.1, u.2)

  -- The times that the clock shows do not fall, and do not lie before `from`.
  abbrev pub IsMonotone : (from : ℕ) → List Reading → Type 0
  IsMonotone from [] = Unit
  IsMonotone from (r ∷ rs) = (from ≤ micros r.curr) × IsMonotone (micros r.curr) rs

  abbrev pub last_time : (from : ℕ) → List Reading → ℕ
  last_time from [] = from
  last_time from (r ∷ rs) = last_time (micros r.curr) rs

  analyze_time_diff_lem :
      (s : AppMixSim N) (vtime : ℕ) (curr : Timeval)
      → analyze_time_diff N s vtime curr ≡ sub_ℕ (micros curr) (micros s.m_start + vtime)
  unfolding analyze_time_diff
  analyze_time_diff_lem s vtime curr = ground arith

  -- The counters, and that the settings stay.
  pub record Ticked (s s' : AppMixSim N) (n : ℕ) : Type 0 where
    pub total : s'.m_totalticks % 2 ^ 64 ≡ (s.m_totalticks + n) % 2 ^ 64
    pub cases :
        (s'.m_case1ticks + s'.m_case2ticks) % 2 ^ 64
        ≡ (s.m_case1ticks + s.m_case2ticks + n) % 2 ^ 64
    pub start : s'.m_start ≡ s.m_start

  schedule-Ticked :
      (s : AppMixSim N) (d : ℤ)
      → Ticked s (schedule N (record s { m_totalticks = (s.m_totalticks + 1) % 2 ^ 64 }) d).0 1
  unfolding schedule
  schedule-Ticked s (pos zero) = record { total = omega arith; cases = omega arith; start = refl }
  schedule-Ticked s (pos (suc n)) = record {
    total = omega arith;
    cases = omega arith;
    start = refl;
  }
  schedule-Ticked s (negsuc n) = record { total = omega arith; cases = omega arith; start = refl }

  schedule-late :
      (s : AppMixSim N) (now start vtime : ℕ)
      → start + vtime ≤ now
      → start + vtime + (schedule N s (sub_ℕ now (start + vtime))).1 ≡ now
  unfolding schedule
  schedule-late s now start vtime h = ground arith

  -- Every datagram of the reading can be taken apart, whatever the state.
  pub record IsReadable (r : Reading) : Type 0 where
    pub first : Buffer × List (Packet N)
    pub second : AppMixSim N → Buffer × List (Packet N)
    pub on_interest_ok :
        receive N
          (λ b. do i ← send_ndn_interest N r.nonce b; some (interest i))
          r.on_interest
          r.recv_buf
        ≡ some first
    pub on_data_ok :
        (s : AppMixSim N)
        → receive N (λ b. do d ← send_ndn_data N s b; some (data_packet d)) r.on_data first.0
          ≡ some (second s)

  tick_total :
      (s : AppMixSim N) (r : Reading) (vtime : ℕ)
      → IsReadable r
      → micros s.m_start + vtime ≤ micros r.curr
      → (t : AppMixSim N × List (Packet N) × ℕ) × (schedule_next_tick N s r.nonce r.on_interest
            r.on_data r.recv_buf vtime r.curr
          ≡ some t)
        × Ticked s t.0 1
        × (micros s.m_start + vtime + t.2 ≡ micros r.curr)
  unfolding schedule_next_tick
  tick_total s r vtime ok h =
      let s1 = record s { m_totalticks = (s.m_totalticks + 1) % 2 ^ 64 } in
      let diff = analyze_time_diff N s1 vtime r.curr in
      let d = analyze_time_diff_lem s1 vtime r.curr in
      (
        ((schedule N s1 diff).0, ok.first.1 ++ (ok.second s1).1, (schedule N s1 diff).1),
        rw (ok.on_interest_ok, ok.on_data_ok s1),
        schedule-Ticked s diff,
        rw d (schedule-late s1 (micros r.curr) (micros s.m_start) vtime h),
      )

  Ticked-then :
      (s s' s'' : AppMixSim N) (n : ℕ) → Ticked s s' 1 → Ticked s' s'' n → Ticked s s'' (suc n)
  Ticked-then s s' s'' n a b = record {
    total = omega (arith, a.total, b.total);
    cases = omega (arith, a.cases, b.cases);
    start = b.start ∙ a.start;
  }

  -- From a state whose virtual time is not ahead of the clock, over a clock that does not run back
  -- and datagrams that can be taken apart, the ticks all run: m_totalticks and the sum of
  -- m_case1ticks and m_case2ticks grow by their number, modulo 2^64, and after the last one the
  -- virtual time is the time that the clock showed.
  pub run_ticks-Ticked :
      (rs : List Reading) (s : AppMixSim N) (vtime : ℕ)
      → All IsReadable rs
      → IsMonotone (micros s.m_start + vtime) rs
      → (u : AppMixSim N × List (Packet N) × ℕ) × (run_ticks s vtime rs ≡ some u)
        × Ticked s u.0 (length rs)
        × (micros s.m_start + u.2 ≡ last_time (micros s.m_start + vtime) rs)
  unfolding run_ticks
  run_ticks-Ticked [] s vtime ok h = (
    (s, [], vtime),
    refl,
    record { total = omega arith; cases = omega arith; start = refl },
    refl,
  )
  run_ticks-Ticked (r ∷ rs) s vtime (ok, oks) (now, later) =
      let (t, e, ticked, on_time) = tick_total s r vtime ok now in
      let here : micros t.0.m_start + (vtime + t.2) ≡ micros r.curr =
        rw ticked.start (omega (arith, on_time)) in
      let (u, f, rest, last) =
        run_ticks-Ticked rs t.0 (vtime + t.2) oks (subst (λ x. IsMonotone x rs) (sym here) later) in
      let start : micros t.0.m_start ≡ micros s.m_start = ap micros ticked.start in
      (
        (u.0, t.1 ++ u.1, u.2),
        rw (e, f),
        Ticked-then s t.0 u.0 (length rs) ticked rest,
        ap (λ x. x + u.2) (sym start) ∙ last ∙ ap (λ x. last_time x rs) here,
      )
