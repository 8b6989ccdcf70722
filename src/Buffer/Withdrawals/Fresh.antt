-- ===== src/Buffer/Withdrawals/Fresh.antt =====
-- The ids of queued withdrawals.
use Prim.Native.String.{String}
use vendor.Base.{
  ℕ, ◌+◌, ◌%◌, ◌≤◌, ◌<◌, ◌≡◌, refl, ap, ◌∙◌, inl, inr, List, [], ◌∷◌, Option, none, some,
  if◌then◌else◌, length, All, arith, Bool-cases, Option-cases, map,
}
use vendor.Base.Map.{Map, string_eq, ◌==◌, lookup, insert, lookup-insert, lookup-remove}
use vendor.Uint256.{u64_mod}
use vendor.Buffer.Withdrawals.{
  PendingWithdrawal, WithdrawalHandler, processing, new_handler, update, mark_processing, fail,
  mark_failed, mark_completed, process_loop, process_pending_withdrawals, get_pending,
  queue_withdrawal, larger_id, restore_loop, restore,
}

-- The calls that change the handler once its state has been restored.
pub data Call : Type 0 where
  queue : (now : ℕ) (user : String) (amount : ℕ) (correlation_id : Option String) → Call
  process : String → Call
  complete : String → Call
  give_up : (id error : String) → Call
  process_all : Call

module _ (id_of : ℕ → String) where
  abbrev pub step : Call → WithdrawalHandler → WithdrawalHandler
  step (queue now user amount correlation_id) h =
      (queue_withdrawal id_of now user amount correlation_id h).1
  step (process id) h = (mark_processing id h).1
  step (complete id) h = (mark_completed id h).1
  step (give_up id error) h = (mark_failed id error h).1
  step process_all h = (process_pending_withdrawals h).1

  abbrev pub run : List Call → WithdrawalHandler → WithdrawalHandler
  run [] h = h
  run (c ∷ calls) h = run calls (step c h)

  -- No id from the next one on is taken.
  abbrev IsFresh : WithdrawalHandler → Type 0
  IsFresh h = (n : ℕ) → h.next_id ≤ n → n < u64_mod → lookup (id_of n) h.withdrawals ≡ none

  -- A call that takes no id leaves those that were not taken.
  abbrev TakesNone : (h h' : WithdrawalHandler) → Type 0
  TakesNone h h' =
      (h'.next_id ≡ h.next_id)
      × ((k : String) → lookup k h.withdrawals ≡ none → lookup k h'.withdrawals ≡ none)

  update-TakesNone :
      (id : String) (f : PendingWithdrawal → PendingWithdrawal) (h : WithdrawalHandler)
      → TakesNone h (update id f h).1
  update-TakesNone id f h = elim (Option-cases (lookup id h.withdrawals)) [
    | inl e ↦ rw (e, update) (refl, λ k none_yet. none_yet)
    | inr (w, e) ↦
        rw (e, update)
          (
            refl,
            λ k none_yet. ground (
              arith,
              lookup-insert id k (f w) h.withdrawals,
              string_eq.same_iff id k,
              e,
              none_yet,
            ),
          )
  ]

  mark_completed-TakesNone :
      (id : String) (h : WithdrawalHandler) → TakesNone h (mark_completed id h).1
  unfolding mark_completed
  mark_completed-TakesNone id h = elim (Option-cases (lookup id h.withdrawals)) [
    | inl e ↦ rw (e, mark_completed) (refl, λ k none_yet. none_yet)
    | inr (w, e) ↦
        rw (e, mark_completed)
          (refl, λ k none_yet. ground (arith, lookup-remove id k h.withdrawals, none_yet))
  ]

  process_loop-TakesNone :
      (ids : List String) (h : WithdrawalHandler) → TakesNone h (process_loop ids h).1
  unfolding process_loop mark_processing
  process_loop-TakesNone [] h = (refl, λ k none_yet. none_yet)
  process_loop-TakesNone (id ∷ ids) h =
      let first = update-TakesNone id (λ w. record w { status = processing }) h in
      let rest = process_loop-TakesNone ids (mark_processing id h).1 in
      (rest.0 ∙ first.0, λ k none_yet. rest.1 k (first.1 k none_yet))

  TakesNone-IsFresh : (h h' : WithdrawalHandler) → TakesNone h h' → IsFresh h → IsFresh h'
  TakesNone-IsFresh h h' taken fresh n le bound =
      taken.1 (id_of n) (fresh n (omega (arith, taken.0, le)) bound)

  module _ (number_of : String → Option ℕ)
      (reads : (n : ℕ) → n < u64_mod → number_of (id_of n) ≡ some n) where
    id_of_inj : (m n : ℕ) → m < u64_mod → n < u64_mod → id_of m ≡ id_of n → m ≡ n
    id_of_inj m n hm hn e = cc (reads m hm, reads n hn, ap number_of e)

    queue-IsFresh :
        (now : ℕ) (user : String) (amount : ℕ) (correlation_id : Option String)
        (h : WithdrawalHandler)
        → IsFresh h
        → h.next_id + 1 < u64_mod
        → IsFresh (queue_withdrawal id_of now user amount correlation_id h).1
          × ((queue_withdrawal id_of now user amount correlation_id h).1.next_id ≡ h.next_id + 1)
    unfolding queue_withdrawal
    queue-IsFresh now user amount correlation_id h fresh small =
        let next : (h.next_id + 1) % u64_mod ≡ h.next_id + 1 = omega (arith, small) in
        (
          (λ n le bound.
              let later : h.next_id < n = omega (arith, next, le) in
              elim (Bool-cases (id_of h.next_id == id_of n)) [
                | inl e ↦ absurd (
                    omega (
                      arith,
                      later,
                      id_of_inj h.next_id n (omega (arith, small)) bound
                          ((string_eq.same_iff (id_of h.next_id) (id_of n)).0 e),
                    ))
                | inr e ↦
                    lookup-insert (id_of h.next_id) (id_of n) _ h.withdrawals
                    ∙ rw e (fresh n (omega (arith, later)) bound)
              ]),
          next,
        )

    kept :
        (h h' : WithdrawalHandler)
        → TakesNone h h'
        → IsFresh h
        → IsFresh h' × (h'.next_id ≤ h.next_id + 1)
    kept h h' taken fresh = (TakesNone-IsFresh h h' taken fresh, omega (arith, taken.0))

    larger_id-grows : (o : Option ℕ) (max_id n : ℕ) → larger_id number_of o max_id < n → max_id < n
    larger_id-grows none max_id n h = h
    larger_id-grows (some m) max_id n h = ground arith

    larger_id-covers :
        (o : Option ℕ) (max_id n : ℕ) → o ≡ some n → larger_id number_of o max_id < n → ⊥
    larger_id-covers none max_id n e h = cc e
    larger_id-covers (some m) max_id n e h = ground (arith, e)

    larger_id-bound :
        (o : Option ℕ) (max_id bound : ℕ)
        → larger_id number_of o 0 ≤ bound
        → max_id ≤ bound
        → larger_id number_of o max_id ≤ bound
    larger_id-bound none max_id bound h le = le
    larger_id-bound (some m) max_id bound h le = ground arith

    taken_once :
        (id k : String) (w : PendingWithdrawal) (m : Map String PendingWithdrawal)
        → lookup k (insert id w m) ≡ (if id == k then lookup id (insert id w m) else lookup k m)
    taken_once id k w m =
        ground (arith, lookup-insert id k w m, lookup-insert id id w m, string_eq.same_iff id id)

    step-IsFresh :
        (c : Call) (h : WithdrawalHandler)
        → IsFresh h
        → h.next_id + 1 < u64_mod
        → IsFresh (step c h) × ((step c h).next_id ≤ h.next_id + 1)
    unfolding mark_processing mark_failed process_pending_withdrawals
    step-IsFresh (queue now user amount correlation_id) h fresh small =
        let queued = queue-IsFresh now user amount correlation_id h fresh small in
        (queued.0, omega (arith, queued.1))
    step-IsFresh (process id) h fresh small =
        kept h (step (process id) h) (update-TakesNone id (λ w. record w { status = processing }) h)
          fresh
    step-IsFresh (complete id) h fresh small =
        kept h (step (complete id) h) (mark_completed-TakesNone id h) fresh
    step-IsFresh (give_up id error) h fresh small =
        kept h (step (give_up id error) h) (update-TakesNone id (fail h.max_retries error) h) fresh
    step-IsFresh process_all h fresh small =
        kept h (step process_all h)
          (process_loop-TakesNone (map (λ (w : PendingWithdrawal). w.id) (get_pending h)) h) fresh

    run-IsFresh :
        (calls : List Call) (h : WithdrawalHandler)
        → IsFresh h
        → h.next_id + length calls < u64_mod
        → IsFresh (run calls h) × ((run calls h).next_id < u64_mod)
    run-IsFresh [] h fresh small = (fresh, omega arith)
    run-IsFresh (c ∷ calls) h fresh small =
        let (fresh', le) = step-IsFresh c h fresh (omega arith) in
        run-IsFresh calls (step c h) fresh' (omega (arith, le))

    -- No saved withdrawal has the number of its id above `bound`.
    abbrev pub IsBelow : (bound : ℕ) → PendingWithdrawal → Type 0
    IsBelow bound w = larger_id number_of (number_of w.id) 0 ≤ bound

    -- The ids above the largest number so far are free.
    abbrev IsFreeAbove : Map String PendingWithdrawal × ℕ → Type 0
    IsFreeAbove (m, max_id) = (n : ℕ) → max_id < n → n < u64_mod → lookup (id_of n) m ≡ none

    restore_loop-IsFreeAbove :
        (saved : List PendingWithdrawal) (m : Map String PendingWithdrawal) (max_id bound : ℕ)
        → IsFreeAbove (m, max_id)
        → All (IsBelow bound) saved
        → max_id ≤ bound
        → let out = restore_loop number_of saved (m, max_id) in IsFreeAbove out × (out.1 ≤ bound)
    unfolding restore_loop
    restore_loop-IsFreeAbove [] m max_id bound free below le = (free, le)
    restore_loop-IsFreeAbove (w ∷ saved) m max_id bound free below le =
        restore_loop-IsFreeAbove saved (insert w.id w m)
          (larger_id number_of (number_of w.id) max_id) bound
          (λ n above bound'. elim (Bool-cases (w.id == id_of n)) [
            | inr e ↦
                lookup-insert w.id (id_of n) w m
                ∙ rw e (free n (larger_id-grows (number_of w.id) max_id n above) bound')
            | inl e ↦
                let number : number_of w.id ≡ some n =
                  ap number_of ((string_eq.same_iff w.id (id_of n)).0 e) ∙ reads n bound' in
                absurd (larger_id-covers (number_of w.id) max_id n number above)
          ])
          below.1 (larger_id-bound (number_of w.id) max_id bound below.0 le)

    -- However the handler is used after its withdrawals were restored at the start, an id that is
    -- handed out is that of no stored withdrawal, as long as the saved numbers and the number of calls
    -- stay in a `u64`. So queueing replaces none.
    pub queue_withdrawal-takes_free :
        (timeout : ℕ) (saved : List PendingWithdrawal) (bound : ℕ) (calls : List Call) (now : ℕ)
        (user : String) (amount : ℕ) (correlation_id : Option String)
        → All (IsBelow bound) saved
        → bound + 1 + length calls < u64_mod
        → let h = run calls (restore number_of saved (new_handler timeout)) in
          let queued = queue_withdrawal id_of now user amount correlation_id h in
          (lookup queued.0 h.withdrawals ≡ none)
          × ((k : String)
              → lookup k queued.1.withdrawals ≡ (
                  if queued.0 == k
                  then lookup queued.0 queued.1.withdrawals
                  else lookup k h.withdrawals))
    unfolding restore new_handler queue_withdrawal
    queue_withdrawal-takes_free timeout saved bound calls now user amount correlation_id below
          small =
        let out =
          restore_loop-IsFreeAbove saved [] 0 bound (λ n above bound'. refl) below (omega arith) in
        let max_id = (restore_loop number_of saved ([], 0)).1 in
        let next : (max_id + 1) % u64_mod ≡ max_id + 1 = omega (arith, out.1, small) in
        let start = restore number_of saved (new_handler timeout) in
        let fresh : IsFresh start = λ n le bound'. out.0 n (omega (arith, next, le)) bound' in
        let used = run-IsFresh calls start fresh (omega (arith, next, out.1, small)) in
        let h = run calls start in
        (used.0 h.next_id (omega arith) used.1, λ k. taken_once (id_of h.next_id) k _ h.withdrawals)
