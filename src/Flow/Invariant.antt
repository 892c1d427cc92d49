-- ===== src/Flow/Invariant.antt =====
-- machine.go: the runs of a machine, along its events.
use restore_safe.Flow.Machine.{
  End, Machine, Op, Payloads, Progress, Run, Stage, busy, cancel, cancelling, close_at,
  close_confirmed, close_requested, confirmed, dismiss, done, finish_step, finished, idle,
  no_progress, other_step, plan_shown, planning, progressed, replan, restore_plan_shown,
  run_cancelling, run_confirmed, run_done, run_progressed, run_replan, running, settle,
  stage_number, stage_of, start, verify_plan_shown,
}
use restore_safe.Flow.Rising.{IsRising, add-IsRising}
use restore_safe.Flow.Reach.{
  Event, cancels, confirms, confirms_close, dismisses, ends, fire, fire_all, progresses, replans,
  requests_close, shows_plan, shows_restore_plan, shows_verify_plan, starts,
}
use restore_safe.Base.{
  Bool-cases, List, Option, [], arith, inl, inr, none, refl, some, true, ℕ, ◌==◌, ◌||◌, ◌∷◌, ◌≡◌,
  ◌≢◌, ◌≤◌,
}

some≢none : {x : ℕ} → some x ≢ none
some≢none h = cc h

module _ {K : Payloads} where
  -- A planning run has nothing left of an earlier start; a run that works has a start; a run is
  -- cancelled from the stage cancelling on; only a finished run has ended.
  unfoldable pub IsLegalRun : Run K → Type 0
  unfolding stage_number
  IsLegalRun r =
      (stage_number r.stage ≢ 0)
      × (stage_number r.stage ≡ 1
          → (r.started ≡ none) × (r.progress ≡ no_progress) × (r.speed ≡ []))
      × (stage_number r.stage ≡ 2 → r.started ≢ none)
      × (stage_number r.stage ≡ 3 → r.cancelled ≡ true)
      × (r.cancelled ≡ true → 3 ≤ stage_number r.stage)
      × (r.ended ≢ none → stage_number r.stage ≡ 4)
      × (stage_number r.stage ≡ 4 → r.ended ≢ none)
      × IsRising r.speed

  unfoldable pub IsLegal : Machine K → Type 0
  unfolding IsLegalRun
  IsLegal none = Unit
  IsLegal (some r) = IsLegalRun r

  start-IsLegal : (m : Machine K) (op : Op) → IsLegal m → IsLegal ((start m op).0)
  unfolding start IsLegal IsLegalRun IsRising
  start-IsLegal m op h = elim (Bool-cases (busy m)) [
    | inl e ↦ rw e h
    | inr e ↦ rw e (
      ground arith,
      λ _. (refl, refl, refl),
      λ q. absurd (cc q),
      λ q. absurd (cc q),
      λ q. absurd (cc q),
      λ q. absurd (q refl),
      λ q. absurd (cc q),
      tt,
    )
  ]

  confirmed-IsLegal : (r : Run K) (now : ℕ) → IsLegalRun r → IsLegalRun (run_confirmed now r)
  unfolding run_confirmed IsLegalRun
  confirmed-IsLegal r now (a, b, c, d, e, f, f', g) =
      elim (Bool-cases (stage_number r.stage == 1)) [
        | inl q ↦
            rw (q, IsLegalRun)
              (
                ground arith,
                λ z. absurd (cc z),
                λ _. some≢none,
                λ z. absurd (cc z),
                λ z. ground arith,
                λ z. ground arith,
                λ z. absurd (cc z),
                g,
              )
        | inr q ↦ rw (q, IsLegalRun) (a, b, c, d, e, f, f', g)
      ]

  replan-IsLegal : (r : Run K) → IsLegalRun r → IsLegalRun (run_replan r)
  unfolding run_replan IsLegalRun IsRising
  replan-IsLegal r (a, b, c, d, e, f, f', g) = elim (Bool-cases (stage_number r.stage == 2)) [
    | inl q ↦
        rw (q, IsLegalRun)
          (
            ground arith,
            λ _. (refl, refl, refl),
            λ z. absurd (cc z),
            λ z. absurd (cc z),
            λ z. ground arith,
            λ z. ground arith,
            λ z. absurd (cc z),
            tt,
          )
    | inr q ↦ rw (q, IsLegalRun) (a, b, c, d, e, f, f', g)
  ]

  progressed-IsLegal :
      (r : Run K) (p : Progress) (now : ℕ) → IsLegalRun r → IsLegalRun (run_progressed p now r)
  unfolding run_progressed IsLegalRun IsRising
  progressed-IsLegal r p now (a, b, c, d, e, f, f', g) =
      elim (Bool-cases (stage_number r.stage == 2)) [
        | inl q ↦ elim (Bool-cases (other_step p r.progress)) [
          | inl o ↦
              rw (q, o, IsLegalRun)
                (a, λ z. ground arith, c, d, e, f, f', add-IsRising [] now p.done tt)
          | inr o ↦
              rw (q, o, IsLegalRun)
                (a, λ z. ground arith, c, d, e, f, f', add-IsRising r.speed now p.done g)
        ]
        | inr q ↦ rw (q, IsLegalRun) (a, b, c, d, e, f, f', g)
      ]

  cancelling-IsLegal : (r : Run K) → IsLegalRun r → IsLegalRun (run_cancelling r)
  unfolding run_cancelling IsLegalRun
  cancelling-IsLegal r (a, b, c, d, e, f, f', g) =
      elim (Bool-cases (stage_number r.stage == 1 || stage_number r.stage == 2)) [
        | inl q ↦
            rw (q, IsLegalRun)
              (
                ground arith,
                λ z. absurd (cc z),
                λ z. absurd (cc z),
                λ z. refl,
                λ z. ground arith,
                λ z. ground arith,
                λ z. absurd (cc z),
                g,
              )
        | inr q ↦ rw (q, IsLegalRun) (a, b, c, d, e, f, f', g)
      ]

  settle-speed :
      (f : Option K.Failure) (o : Option K.Result) (r : Run K) → (settle f o r).speed ≡ r.speed
  unfolding settle finish_step
  settle-speed none none r = refl
  settle-speed none (some o) r = refl
  settle-speed (some f) o r = refl

  done-IsLegal :
      (r : Run K) (end : End K) (now : ℕ) → IsLegalRun r → IsLegalRun (run_done end now r)
  unfolding run_done IsLegalRun
  done-IsLegal r end now (a, b, c, d, e, f, f', g) = rw (settle-speed end.failure end.result r) (
    ground arith,
    λ z. absurd (cc z),
    λ z. absurd (cc z),
    λ z. absurd (cc z),
    λ z. ground arith,
    λ z. refl,
    λ z. some≢none,
    g,
  )

  close_at-IsLegal : (s : Stage) (m : Machine K) → IsLegal m → IsLegal ((close_at s m).0)
  unfolding close_at IsLegal close_confirmed IsLegalRun
  close_at-IsLegal planning none h = h
  close_at-IsLegal planning (some r) h = h
  close_at-IsLegal cancelling none h = h
  close_at-IsLegal cancelling (some r) h = h
  close_at-IsLegal running m h = h
  close_at-IsLegal idle m h = h
  close_at-IsLegal finished m h = h

  fire-IsLegal : (m : Machine K) (e : Event K) → IsLegal m → IsLegal (fire m e)
  unfolding fire IsLegal confirmed replan progressed cancel done close_requested close_confirmed
      dismiss plan_shown verify_plan_shown restore_plan_shown IsLegalRun
  fire-IsLegal m (starts op) h = start-IsLegal m op h
  fire-IsLegal m requests_close h = close_at-IsLegal (stage_of m) m h
  fire-IsLegal m dismisses h = elim (Bool-cases (stage_number (stage_of m) == 4)) [
    | inl e ↦ rw e tt
    | inr e ↦ rw e h
  ]
  fire-IsLegal none (shows_plan p) h = h
  fire-IsLegal none (shows_verify_plan p) h = h
  fire-IsLegal none (shows_restore_plan p) h = h
  fire-IsLegal none (confirms now) h = h
  fire-IsLegal none replans h = h
  fire-IsLegal none (progresses p now) h = h
  fire-IsLegal none cancels h = h
  fire-IsLegal none confirms_close h = h
  fire-IsLegal none (ends end now) h = h
  fire-IsLegal (some r) (shows_plan p) h = h
  fire-IsLegal (some r) (shows_verify_plan p) h = h
  fire-IsLegal (some r) (shows_restore_plan p) h = h
  fire-IsLegal (some r) (confirms now) h = confirmed-IsLegal r now h
  fire-IsLegal (some r) replans h = replan-IsLegal r h
  fire-IsLegal (some r) (progresses p now) h = progressed-IsLegal r p now h
  fire-IsLegal (some r) cancels h = cancelling-IsLegal r h
  fire-IsLegal (some r) confirms_close h = h
  fire-IsLegal (some r) (ends end now) h = done-IsLegal r end now h

  fire_all-IsLegal : (m : Machine K) (es : List (Event K)) → IsLegal m → IsLegal (fire_all m es)
  unfolding fire_all
  fire_all-IsLegal m [] h = h
  fire_all-IsLegal m (e ∷ es) h = fire_all-IsLegal (fire m e) es (fire-IsLegal m e h)

  -- Whatever calls are made, in whatever order, the run that there is, is legal.
  pub fire_all-none-IsLegal : (es : List (Event K)) → IsLegal (fire_all none es)
  unfolding IsLegal
  fire_all-none-IsLegal es = fire_all-IsLegal none es tt
