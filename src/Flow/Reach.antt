-- ===== src/Flow/Reach.antt =====
-- The runs that machine.go reaches: the calls of the window and the worker as events, in any order.
use restore_safe.Flow.Machine.{
  End, Machine, Op, Payloads, Progress, Run, Stage, busy, busy_stage, cancel, cancelling, close_at,
  close_confirmed, close_requested, confirmed, dismiss, done, finished, idle, other_step,
  plan_shown, planning, progressed, replan, restore_plan_shown, run_cancelling, run_confirmed,
  run_progressed, run_replan, running, stage_number, stage_of, start, verify_plan_shown,
}
use restore_safe.Base.{
  Bool, Bool-cases, List, [], arith, false, inl, inr, none, not, refl, some, true, ℕ, ◌&&◌, ◌==◌,
  ◌||◌, ◌∙◌, ◌∷◌, ◌≡◌, ◌⊎◌,
}

-- A call of the machine that may change it. CancelRequested changes nothing.
pub data Event (K : Payloads) : Type 0 where
  starts : Op → Event K
  shows_plan : K.BackupPlan → Event K
  shows_verify_plan : K.VerifyPlan → Event K
  shows_restore_plan : K.RestorePlan → Event K
  confirms : ℕ → Event K
  replans : Event K
  progresses : Progress → ℕ → Event K
  cancels : Event K
  requests_close : Event K
  confirms_close : Event K
  ends : End K → ℕ → Event K
  dismisses : Event K

module _ {K : Payloads} where
  unfoldable pub is_end : Event K → Bool
  is_end (ends _ _) = true
  is_end (starts _) = false
  is_end (shows_plan _) = false
  is_end (shows_verify_plan _) = false
  is_end (shows_restore_plan _) = false
  is_end (confirms _) = false
  is_end replans = false
  is_end (progresses _ _) = false
  is_end cancels = false
  is_end requests_close = false
  is_end confirms_close = false
  is_end dismisses = false

  unfoldable pub no_end : List (Event K) → Bool
  unfolding is_end
  no_end [] = true
  no_end (e ∷ es) = not (is_end e) && no_end es

  unfoldable pub fire : Machine K → Event K → Machine K
  fire m (starts op) = (start m op).0
  fire m (shows_plan p) = plan_shown m p
  fire m (shows_verify_plan p) = verify_plan_shown m p
  fire m (shows_restore_plan p) = restore_plan_shown m p
  fire m (confirms now) = confirmed m now
  fire m replans = replan m
  fire m (progresses p now) = progressed m p now
  fire m cancels = cancel m
  fire m requests_close = (close_requested m).0
  fire m confirms_close = close_confirmed m
  fire m (ends end now) = (done m end now).0
  fire m dismisses = dismiss m

  unfoldable pub fire_all : Machine K → List (Event K) → Machine K
  unfolding fire
  fire_all m [] = m
  fire_all m (e ∷ es) = fire_all (fire m e) es

  -- What a run keeps until it ends, once it has it: its operation, the wish to close the window and
  -- the cancellation.
  unfoldable pub IsLater : Run K → Machine K → Type 0
  unfolding stage_number busy_stage
  IsLater r none = ⊥
  IsLater r (some r') =
      (r'.op ≡ r.op)
      × (busy_stage r'.stage ≡ true)
      × (r.close_when_done ≡ true → r'.close_when_done ≡ true)
      × (stage_number r.stage ≡ 3 → stage_number r'.stage ≡ 3)

  close_at-kept :
      (s : Stage) (m : Machine K) → ((close_at s m).0 ≡ m) ⊎ ((close_at s m).0 ≡ close_confirmed m)
  unfolding close_at
  close_at-kept planning m = inr refl
  close_at-kept cancelling m = inr refl
  close_at-kept running m = inl refl
  close_at-kept idle m = inl refl
  close_at-kept finished m = inl refl

  fire-IsLater :
      (r : Run K) (e : Event K)
      → busy_stage r.stage ≡ true
      → is_end e ≡ false
      → IsLater r (fire (some r) e)
  unfolding fire is_end busy start plan_shown verify_plan_shown restore_plan_shown confirmed replan
      progressed cancel close_requested close_confirmed done dismiss IsLater run_cancelling
      run_progressed run_replan run_confirmed stage_of
  fire-IsLater r (starts op) b n = rw (b, IsLater) (refl, b, λ c. c, λ c. c)
  fire-IsLater r (shows_plan p) b n = (refl, b, λ c. c, λ c. c)
  fire-IsLater r (shows_verify_plan p) b n = (refl, b, λ c. c, λ c. c)
  fire-IsLater r (shows_restore_plan p) b n = (refl, b, λ c. c, λ c. c)
  fire-IsLater r (confirms now) b n = elim (Bool-cases (stage_number r.stage == 1)) [
    | inl e ↦ rw (e, IsLater) (refl, refl, λ c. c, λ c. absurd (cc (e, c)))
    | inr e ↦ rw (e, IsLater) (refl, b, λ c. c, λ c. c)
  ]
  fire-IsLater r replans b n = elim (Bool-cases (stage_number r.stage == 2)) [
    | inl e ↦ rw (e, IsLater) (refl, refl, λ c. c, λ c. absurd (cc (e, c)))
    | inr e ↦ rw (e, IsLater) (refl, b, λ c. c, λ c. c)
  ]
  fire-IsLater r (progresses p now) b n = elim (Bool-cases (stage_number r.stage == 2)) [
    | inl e ↦ elim (Bool-cases (other_step p r.progress)) [
      | inl o ↦ rw (e, o, run_progressed) (refl, b, λ c. c, λ c. c)
      | inr o ↦ rw (e, o, run_progressed) (refl, b, λ c. c, λ c. c)
    ]
    | inr e ↦ rw (e, run_progressed) (refl, b, λ c. c, λ c. c)
  ]
  fire-IsLater r cancels b n =
      elim (Bool-cases (stage_number r.stage == 1 || stage_number r.stage == 2)) [
        | inl e ↦ rw (e, IsLater) (refl, refl, λ c. c, λ c. refl)
        | inr e ↦ rw (e, IsLater) (refl, b, λ c. c, λ c. c)
      ]
  fire-IsLater r requests_close b n = elim (close_at-kept r.stage (some r)) [
    | inl e ↦ rw (e, IsLater) (refl, b, λ c. c, λ c. c)
    | inr e ↦ rw (e, IsLater) (refl, b, λ c. refl, λ c. c)
  ]
  fire-IsLater r confirms_close b n = (refl, b, λ c. refl, λ c. c)
  fire-IsLater r (ends end now) b n = absurd (cc (n))
  fire-IsLater r dismisses b n = elim (Bool-cases (stage_number r.stage == 4)) [
    | inl e ↦ absurd (ground arith)
    | inr e ↦ rw (e, IsLater) (refl, b, λ c. c, λ c. c)
  ]

  IsLater-refl : (r : Run K) → busy_stage r.stage ≡ true → IsLater r (some r)
  unfolding IsLater
  IsLater-refl r b = (refl, b, λ h. h, λ h. h)

  IsLater-busy : (r q : Run K) → IsLater r (some q) → busy_stage q.stage ≡ true
  unfolding IsLater
  IsLater-busy r q (o, b, c, s) = b

  IsLater-none : (r : Run K) → IsLater r none → ⊥
  unfolding IsLater
  IsLater-none r h = h

  IsLater-trans : (r r' : Run K) (m : Machine K) → IsLater r (some r') → IsLater r' m → IsLater r m
  unfolding IsLater
  IsLater-trans r r' none h h' = absurd h'
  IsLater-trans r r' (some q) (o, b, c, s) (o', b', c', s') =
      (o' ∙ o, b', λ h. c' (c h), λ h. s' (s h))

  fire_all-IsLater :
      (r : Run K) (m : Machine K) (es : List (Event K))
      → IsLater r m
      → no_end es ≡ true
      → IsLater r (fire_all m es)
  unfolding fire_all no_end
  fire_all-IsLater r none es h n = absurd (IsLater-none r h)
  fire_all-IsLater r (some q) [] h n = h
  fire_all-IsLater r (some q) (e ∷ es) h n =
      let step = fire-IsLater q e (IsLater-busy r q h) (ground arith) in
      fire_all-IsLater r (fire (some q) e) es (IsLater-trans r q (fire (some q) e) h step)
        (ground arith)

  start-IsLater : (r : Run K) (m : Machine K) (op : Op) → IsLater r m → start m op ≡ (m, false)
  unfolding start busy stage_of
  start-IsLater r none op h = absurd (IsLater-none r h)
  start-IsLater r (some q) op h = rw (IsLater-busy r q h) refl

  -- From a busy run until the worker ends, whatever else is called: the machine is busy with the same
  -- operation and refuses to start another, a wish to close the window stays, and so does a cancellation.
  pub busy-until_end :
      (r : Run K) (es : List (Event K)) (other : Op)
      → busy (some r) ≡ true
      → no_end es ≡ true
      → IsLater r (fire_all (some r) es)
        × (start (fire_all (some r) es) other ≡ (fire_all (some r) es, false))
  unfolding busy start stage_of
  busy-until_end r es other b n =
      let h = fire_all-IsLater r (some r) es (IsLater-refl r b) n in
      (h, start-IsLater r (fire_all (some r) es) other h)
