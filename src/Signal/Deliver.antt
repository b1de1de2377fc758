-- ===== src/Signal/Deliver.antt =====
-- The loop of `deliver_pending` in level0b1/signal.rs: it ends, and delivers the lowest pending
-- signal that is not ignored.
use the_cursed_moon_kernel.Prelude.{
  ℕ, zero, suc, ◌+◌, ◌%◌, ◌^◌, ◌≤◌, ◌<◌, Bool, true, false, not, ◌&&◌, ◌||◌, ltb, leb, ◌==◌,
  if◌then◌else◌, Option, none, some, update, update_same, update_self, update-update, find_from,
  find_from_hit, find_from_miss, find_from_ext, count_to, count_to_change, ◌≡◌, refl, ap, sym, ◌∙◌,
  arith, ℕ_discrete, eq→==, ne→==, Option-cases, inl, inr, fun_ext, if_ind, option_ind, bool_ind,
  lt_cases, count_to-le, update_ne,
}
use the_cursed_moon_kernel.Signal.{
  State, Delivery, returns, exits_with, set_pending, count_delivered, enter, deliver_from,
  deliver_pending,
}

abbrev pub cleared : ℕ → (ℕ → Bool) → ℕ → Bool
cleared k f n = if ltb n k then false else f n

cleared_none : (f : ℕ → Bool) → find_from f 32 0 ≡ none → cleared 32 f ≡ f
cleared_none f h = fun_ext λ n.
    if_ind (λ b. b ≡ f n) (ltb n 32)
      (λ lt. sym (find_from_miss f 32 0 h n (omega arith) (ground (arith, lt)))) (λ _. refl)

cleared_first :
    (f : ℕ → Bool) (i : ℕ) → find_from f 32 0 ≡ some i → cleared (i + 1) f ≡ update f i false
cleared_first f i h =
    let (_, _, _, low) = find_from_hit f 32 0 i h in
    fun_ext λ n. elim (ℕ_discrete n i) [
      | yes e ↦ rw e (ground arith)
      | no ne ↦ rw (ne→== n i ne) (
          if_ind (λ b. b ≡ f n) (ltb n (i + 1))
            (λ lt. sym (low n (omega arith) (ground (arith, lt)))) (λ _. refl))
    ]

cleared_update : (f : ℕ → Bool) (i k : ℕ) → i < k → cleared k (update f i false) ≡ cleared k f
cleared_update f i k h = fun_ext λ n. ground arith

due_pending : (a b : Bool) → (a && b) ≡ true → a ≡ false → ⊥
due_pending true b h e = cc
due_pending false b h e = cc

apart_bool : (b : Bool) → b ≡ true → b ≡ false → ⊥
apart_bool b p q = cc

le_antisym : (n i : ℕ) → (i < n → ⊥) → (n < i → ⊥) → n ≡ i
le_antisym n i a b = elim (lt_cases n i) [
  | inl lt ↦ absurd (b lt)
  | inr ge ↦ elim (lt_cases i n) [ inl lt ↦ absurd (a lt) | inr le ↦ omega arith ]
]

one_less :
    (a b : ℕ) (p q : Bool)
    → p ≡ true
    → q ≡ false
    → a + (if p then 1 else 0) ≡ b + (if q then 1 else 0)
    → a + 1 ≡ b
one_less a b p q hp hq h = ground arith

module _ {Context : Type 0} (build : Context → ℕ → ℕ → ℕ → Option Context) (task : ℕ)
    (frame : Context) where
  -- The first signal that is pending and not ignored.
  abbrev pub is_due : State Context → ℕ → Bool
  is_due s n = s.pending task n && not ((s.dispositions task n).handler == 1)

  -- No signal below `k` is pending any more.
  abbrev pub taken : State Context → ℕ → State Context
  taken s k = record s { pending = update s.pending task (cleared k (s.pending task)) }

  -- What becomes of the signal that is due: no loop. Its default ends the process; a handler is
  -- entered with the context saved, unless its frame cannot be built, which ends the process too.
  abbrev pub delivery : State Context → Option ℕ → Delivery × State Context × Context
  delivery s none = (returns, taken s 32, frame)
  delivery s (some n) =
      let d = s.dispositions task n in
      if d.handler == 0
      then (
        exits_with (128 + n),
        record (taken s (n + 1)) { delivered = (s.delivered + 1) % 2 ^ 32 },
        frame,
      )
      else elim (build frame n d.handler d.restorer) [
        | none ↦ (
          exits_with (128 + n),
          record (taken s (n + 1)) { saved = update s.saved task frame },
          frame,
        )
        | some context ↦ (
          returns,
          record (taken s (n + 1)) {
            saved = update s.saved task frame;
            in_handler = update s.in_handler task true;
            delivered = (s.delivered + 1) % 2 ^ 32;
          },
          context,
        )
      ]

  no_due :
      (s : State Context)
      → find_from (s.pending task) 32 0 ≡ none
      → find_from (is_due s) 32 0 ≡ none
  no_due s h = elim (Option-cases (find_from (is_due s) 32 0)) [
    | inl e ↦ e
    | inr (n, e) ↦
        let (hit, lo, hi, _) = find_from_hit (is_due s) 32 0 n e in
        let miss = find_from_miss (s.pending task) 32 0 h n lo hi in
        absurd (due_pending (s.pending task n) _ hit miss)
  ]

  -- The first pending signal is due, unless it is ignored.
  first_due :
      (s : State Context) (i : ℕ)
      → find_from (s.pending task) 32 0 ≡ some i
      → ((s.dispositions task i).handler == 1) ≡ false
      → find_from (is_due s) 32 0 ≡ some i
  first_due s i h live =
      let (set, _, hi, low) = find_from_hit (s.pending task) 32 0 i h in
      let due : is_due s i ≡ true = ground (arith, set, live) in
      elim (Option-cases (find_from (is_due s) 32 0)) [
        | inl e ↦
            let miss = find_from_miss (is_due s) 32 0 e i (omega arith) hi in
            absurd (apart_bool _ due miss)
        | inr (n, e) ↦
            let (hit, _, _, low') = find_from_hit (is_due s) 32 0 n e in
            e
            ∙ ap some (
                le_antisym n i (λ lt. apart_bool _ due (low' i (omega arith) lt))
                  (λ lt. due_pending (s.pending task n) _ hit (low n (omega arith) lt)))
      ]

  taken_none : (s : State Context) → find_from (s.pending task) 32 0 ≡ none → taken s 32 ≡ s
  taken_none s h =
      ap (λ (f : ℕ → ℕ → Bool). record s { pending = f })
        (ap (update s.pending task) (cleared_none (s.pending task) h) ∙ update_same s.pending task)

  taken_first :
      (s : State Context) (i : ℕ)
      → find_from (s.pending task) 32 0 ≡ some i
      → taken s (i + 1) ≡ set_pending s task i false
  taken_first s i h =
      ap (λ (f : ℕ → ℕ → Bool). record s { pending = f })
        (ap (update s.pending task) (cleared_first (s.pending task) i h))

  -- A signal that is taken off and ignored.
  taken_again :
      (s : State Context) (i k : ℕ) → i < k → taken (set_pending s task i false) k ≡ taken s k
  taken_again s i k lt =
      let f = s.pending task in
      let g = update f i false in
      let h = update s.pending task g in
      ap (λ (f : ℕ → ℕ → Bool). record s { pending = f })
        (ap (update h task)
            (ap (cleared k) (update_self s.pending task g) ∙ cleared_update f i k lt)
          ∙ update-update s.pending task g (cleared k f))

  due_again :
      (s : State Context) (i : ℕ)
      → ((s.dispositions task i).handler == 1) ≡ true
      → find_from (is_due (set_pending s task i false)) 32 0 ≡ find_from (is_due s) 32 0
  due_again s i ign = find_from_ext (is_due (set_pending s task i false)) (is_due s) 32 0 λ n _ _.
      let now : (set_pending s task i false).pending task n ≡ update (s.pending task) i false n =
        ap (λ (f : ℕ → Bool). f n) (update_self s.pending task (update (s.pending task) i false)) in
      rw now (elim (ℕ_discrete n i) [
        | yes e ↦ rw (e, eq→== i i refl, ign) (ground arith)
        | no ne ↦ rw (ne→== n i ne) refl
      ])

  delivery_again :
      (s : State Context) (i : ℕ) (o : Option ℕ)
      → i < 32
      → ((n : ℕ) → o ≡ some n → i ≤ n)
      → delivery (set_pending s task i false) o ≡ delivery s o
  unfolding enter
  delivery_again s i none lt up =
      ap (λ (t : State Context). (returns, t, frame)) (taken_again s i 32 lt)
  delivery_again s i (some n) lt up =
      ap
        (λ (t : State Context).
          if (s.dispositions task n).handler == 0
          then (exits_with (128 + n), count_delivered t, frame)
          else enter build task n (s.dispositions task n) t frame)
        (taken_again s i (n + 1) (omega (arith, up n refl)))

  fewer :
      (s : State Context) (i fuel : ℕ)
      → find_from (s.pending task) 32 0 ≡ some i
      → count_to (s.pending task) 32 < suc fuel
      → count_to ((set_pending s task i false).pending task) 32 < fuel
  fewer s i fuel h lt =
      let (set, _, hi, _) = find_from_hit (s.pending task) 32 0 i h in
      let f = s.pending task in
      let g = update f i false in
      let change = count_to_change f g 32 i hi (λ j ne. sym (update_ne f i false j ne)) in
      rw (update_self s.pending task g) (
        omega (
          arith,
          one_less (count_to g 32) (count_to f 32) (f i) (g i) set (update_self f i false) change,
        ))

  above :
      (s : State Context) (i : ℕ)
      → ((j : ℕ) → 0 ≤ j → j < i → s.pending task j ≡ false)
      → (n : ℕ) → find_from (is_due s) 32 0 ≡ some n
      → i ≤ n
  above s i low n e =
      let (hit, _, _, _) = find_from_hit (is_due s) 32 0 n e in
      elim (lt_cases n i) [
        | inl lt ↦ absurd (due_pending (s.pending task n) _ hit (low n (omega arith) lt))
        | inr le ↦ le
      ]

  -- With as much fuel as signals are pending and one more, the loop does what one look at the masks
  -- says.
  pub deliver_from-delivery :
      (fuel : ℕ) (s : State Context)
      → count_to (s.pending task) 32 < fuel
      → deliver_from build fuel task s frame ≡ delivery s (find_from (is_due s) 32 0)
  unfolding deliver_from enter
  deliver_from-delivery zero s lt = absurd (omega arith)
  deliver_from-delivery (suc fuel) s lt =
      let P =
        λ (r : Delivery × State Context × Context). r ≡ delivery s (find_from (is_due s) 32 0) in
      option_ind P (find_from (s.pending task) 32 0)
        (λ e.
          ap (λ (t : State Context). (returns, t, frame)) (sym (taken_none s e))
          ∙ ap (delivery s) (sym (no_due s e)))
        λ i e.
          let (set, _, hi, low) = find_from_hit (s.pending task) 32 0 i e in
          let s' = set_pending s task i false in
          bool_ind P ((s.dispositions task i).handler == 1)
            (λ ign.
              deliver_from-delivery fuel s' (fewer s i fuel e lt)
              ∙ ap (delivery s') (due_again s i ign)
              ∙ delivery_again s i (find_from (is_due s) 32 0) (omega arith) (above s i low))
            λ live.
              ap
                (λ (t : State Context).
                  if (s.dispositions task i).handler == 0
                  then (exits_with (128 + i), count_delivered t, frame)
                  else enter build task i (s.dispositions task i) t frame)
                (sym (taken_first s i e))
              ∙ ap (delivery s) (sym (first_due s i e live))

  -- `deliver_pending`, which clears and skips signals in a loop, does what one choice does: for an
  -- interrupt from the kernel, a task from 8 up or a task inside a handler, nothing; otherwise, for
  -- the lowest pending signal that is not ignored, the process ends where the default stands, and
  -- else the context is saved and the handler's frame entered, or the process ends where this frame
  -- cannot be built; this signal and all lower ones are no longer pending; where there is none, no
  -- signal below 32 stays pending.
  pub deliver_pending-delivery :
      (up : Bool) (s : State Context)
      → deliver_pending build up task s frame ≡ (
          if not up || leb 8 task || s.in_handler task
          then (returns, s, frame)
          else delivery s (find_from (is_due s) 32 0))
  unfolding deliver_pending
  deliver_pending-delivery up s =
      ap
        (λ (r : Delivery × State Context × Context).
          if not up || leb 8 task || s.in_handler task then (returns, s, frame) else r)
        (deliver_from-delivery 33 s (omega (arith, count_to-le (s.pending task) 32)))
