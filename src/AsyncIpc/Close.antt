-- ===== src/AsyncIpc/Close.antt =====
-- A `close` of a channel of kernel/src/async_ipc.rs that a `poll` misses.
use native.Mathlib.Decide.{ℕ_discrete}
use star_os_kernel.Prelude.{
  ℕ, ◌≡◌, ◌≢◌, inl, inr, refl, sym, subst, ap, ◌∙◌, true, false, Bool-cases, List, [], ◌∷◌, ◌++◌,
  Array, store, store_self, store_ne, ◌==◌,
}
use star_os_kernel.AsyncIpc.{
  Place, outside, sending, waking, closing, polling, registering, rechecking, waiting, Call, poll,
  close, System, go, woken, wake_each, drain, try_recv, begin, advance, step, run,
}
use star_os_kernel.AsyncIpc.Stuck.{receives, NoClose, IsStuck, later-IsStuck}

woken-receives : (p : Place) → receives p ≡ true → receives (woken p) ≡ true
unfolding receives woken
woken-receives outside h = refl
woken-receives (sending msg) h = h
woken-receives waking h = h
woken-receives closing h = h
woken-receives polling h = refl
woken-receives registering h = refl
woken-receives (rechecking b) h = refl
woken-receives waiting h = refl

-- Neither a thread on its way to `registering` nor one that receives leaves that by being woken.
wake_each-receives :
    (wakers : List ℕ) (threads : Array Place) (k : ℕ)
    → receives (threads k) ≡ true
    → receives (wake_each wakers threads k) ≡ true
unfolding wake_each
wake_each-receives [] threads k h = h
wake_each-receives (w ∷ wakers) threads k h =
    wake_each-receives wakers (store threads w (woken (threads w))) k (elim (ℕ_discrete k w) [
      | yes e ↦
          ap receives
            (ap (store threads w (woken (threads w))) e ∙ store_self threads w (woken (threads w)))
          ∙ woken-receives (threads w) (ap (λ (q : ℕ). receives (threads q)) (sym e) ∙ h)
      | no ne ↦ ap receives (store_ne threads w k (woken (threads w)) ne) ∙ h
    ])

wake_each_registering :
    (wakers : List ℕ) (threads : Array Place) (k : ℕ)
    → threads k ≡ registering
    → wake_each wakers threads k ≡ registering
unfolding wake_each woken
wake_each_registering [] threads k h = h
wake_each_registering (w ∷ wakers) threads k h =
    wake_each_registering wakers (store threads w (woken (threads w))) k (elim (ℕ_discrete k w) [
      | yes e ↦
          ap (store threads w (woken (threads w))) e
          ∙ store_self threads w (woken (threads w))
          ∙ ap (λ (q : ℕ). woken (threads q)) (sym e)
          ∙ ap woken h
      | no ne ↦ store_ne threads w k (woken (threads w)) ne ∙ h
    ])

module _ (s : System) (i j : ℕ) (ne : i ≢ j) (empty : s.channel.queue ≡ [])
    (late : s.threads i ≡ registering) (out : s.threads j ≡ outside)
    (quiet : (k : ℕ) → receives (s.threads k) ≡ true) where
  abbrev s1 : System
  s1 = go (record s { channel = record (s.channel) { closed = true } }) j closing

  abbrev s2 : System
  s2 = drain s1 j

  abbrev s3 : System
  s3 =
      go (record s2 { channel = record (s2.channel) { wakers = s2.channel.wakers ++ (i ∷ []) } }) i
        (rechecking false)

  abbrev s4 : System
  s4 = go s3 i waiting

  first : step s j close ≡ s1
  unfolding step advance begin
  first = rw out refl

  second : step s1 j poll ≡ s2
  unfolding step advance go
  second = ap (advance s1 j poll) (store_self s.threads j closing)

  still_late : s2.threads i ≡ registering
  unfolding drain go
  still_late =
      store_ne (wake_each s.channel.wakers (store s.threads j closing)) j i outside ne
      ∙ wake_each_registering s.channel.wakers (store s.threads j closing) i
          (store_ne s.threads j i closing ne ∙ late)

  third : step s2 i poll ≡ s3
  unfolding step advance
  third = ap (advance s2 i poll) still_late

  fourth : step s3 i poll ≡ s4
  unfolding step advance go drain try_recv
  fourth =
      ap (advance s3 i poll) (store_self s2.threads i (rechecking false))
      ∙ ap (try_recv s3 i waiting) empty

  quiet_then : (k : ℕ) → receives (s2.threads k) ≡ true
  unfolding drain go receives
  quiet_then k = elim (Bool-cases (k == j)) [
    | inl e ↦ rw e refl
    | inr e ↦
        rw e (wake_each-receives s.channel.wakers (store s.threads j closing) k (rw e (quiet k)))
  ]

  missed : IsStuck s4 i
  unfolding IsStuck go receives drain
  missed = (
    refl,
    store_self s3.threads i waiting,
    λ k. elim (Bool-cases (k == i)) [ inl e ↦ rw e refl | inr e ↦ rw e (quiet_then k) ],
  )

-- Let the queue be empty, no thread in `send` or `close`, thread `j` outside, and thread `i` in `poll`
-- behind its test of `closed`. If `j` closes the channel before `i` registers its waker, then after
-- two steps of each the channel is closed and `i` waits; and whatever the threads do from then on,
-- unless one calls `close` again, `i` waits.
pub close_missed :
    (s : System) (i j : ℕ)
    → i ≢ j
    → s.channel.queue ≡ []
    → s.threads i ≡ registering
    → s.threads j ≡ outside
    → ((k : ℕ) → receives (s.threads k) ≡ true)
    → (schedule : List (ℕ × Call)) → NoClose schedule
    → IsStuck (run (run s ((j, close) ∷ (j, poll) ∷ (i, poll) ∷ (i, poll) ∷ [])) schedule) i
unfolding run
close_missed s i j ne empty late out quiet schedule calm =
    later-IsStuck _ i schedule
      (subst (λ (t : System). IsStuck t i)
        (sym (
          ap (λ (t : System). step (step (step t j poll) i poll) i poll)
            (first s i j ne empty late out quiet)
          ∙ ap (λ (t : System). step (step t i poll) i poll) (second s i j ne empty late out quiet)
          ∙ ap (λ (t : System). step t i poll) (third s i j ne empty late out quiet)
          ∙ fourth s i j ne empty late out quiet))
        (missed s i j ne empty late out quiet))
      calm
