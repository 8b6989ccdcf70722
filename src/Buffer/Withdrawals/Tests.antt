-- ===== src/Buffer/Withdrawals/Tests.antt =====
-- Ids that count by strokes, and a handler with two saved withdrawals.
use Prim.Native.String.{String}
use vendor.Base.{
  ℕ, suc, zero, ◌<◌, ◌≡◌, refl, ap, List, [], ◌∷◌, Option, none, some, if◌then◌else◌, length, arith,
}
use vendor.Base.Map.{string_eq, ◌==◌, lookup}
use vendor.Uint256.{u64_mod}
use vendor.Buffer.Withdrawals.{
  PendingWithdrawal, pending, processing, permanently_failed, new_handler, mark_failed,
  mark_completed, mark_processing, process_pending_withdrawals, pending_count, get_timed_out,
  get_pending, queue_withdrawal, restore, result_of, completed,
}
use vendor.Buffer.Withdrawals.Fresh.{
  Call, queue, process, complete, give_up, run, queue_withdrawal-takes_free,
}

abbrev strokes : ℕ → String
strokes zero = ""
strokes (suc n) = String.◌∷◌ "|" (strokes n)

abbrev stroke_count : String → ℕ
stroke_count String.[] = 0
stroke_count (String.◌∷◌ c s) = suc (stroke_count s)

abbrev number_of : String → Option ℕ
number_of s = some (stroke_count s)

count_strokes : (n : ℕ) → stroke_count (strokes n) ≡ n
count_strokes zero = refl
count_strokes (suc n) = ap suc (count_strokes n)

reads : (n : ℕ) → n < u64_mod → number_of (strokes n) ≡ some n
reads n h = ap some (count_strokes n)

abbrev withdrawal : String → PendingWithdrawal
withdrawal id = record {
  id = id;
  user = "0x12";
  amount = 100;
  queued_at = 5;
  status = pending;
  correlation_id = none;
  retry_count = 0;
  last_error = none;
}

abbrev saved : List PendingWithdrawal
saved = withdrawal "||" ∷ withdrawal "|" ∷ []

abbrev calls : List Call
calls = queue 9 "0x34" 50 none ∷ process "||" ∷ complete "||" ∷ give_up "|" "no funds" ∷ []

queue_withdrawal-takes_free_example :
    let h = run strokes calls (restore number_of saved (new_handler 300)) in
    let queued = queue_withdrawal strokes 10 "0x56" 7 none h in
    (lookup queued.0 h.withdrawals ≡ none)
    × ((k : String)
        → lookup k queued.1.withdrawals ≡ (
            if queued.0 == k then lookup queued.0 queued.1.withdrawals else lookup k h.withdrawals))
queue_withdrawal-takes_free_example =
    queue_withdrawal-takes_free strokes number_of reads 300 saved 2 calls 10 "0x56" 7 none
      (omega arith, (omega arith, tt)) (omega arith)

restored : (restore number_of saved (new_handler 300)).next_id ≡ 3
unfolding restore new_handler
restored = refl

-- After three failures a withdrawal is given up, though it can be marked again.
given_up :
    let h =
      run strokes
        (give_up "|" "a" ∷ give_up "|" "b" ∷ give_up "|" "c" ∷ [])
        (restore number_of saved (new_handler 300)) in
    (lookup "|" h.withdrawals
      ≡ some (record (withdrawal "|") {
        retry_count = 3;
        last_error = some "c";
        status = permanently_failed;
      }))
    × (length (get_pending h) ≡ 1)
    × (pending_count h ≡ 1)
    × ((mark_processing "|" h).0
        ≡ some (record (withdrawal "|") {
          retry_count = 3;
          last_error = some "c";
          status = processing;
        }))
unfolding restore new_handler mark_failed get_pending pending_count mark_processing
given_up = (refl, refl, refl, refl)

-- A withdrawal that is being processed is not handed out again, but times out.
handed_out :
    let h = (process_pending_withdrawals (restore number_of saved (new_handler 300))).1 in
    (length (process_pending_withdrawals (restore number_of saved (new_handler 300))).0 ≡ 2)
    × ((process_pending_withdrawals h).0 ≡ [])
    × (length (get_timed_out 306 h) ≡ 2)
    × (get_timed_out 305 h ≡ [])
    × ((mark_completed "||" h).0 ≡ some (result_of completed (withdrawal "||")))
unfolding restore new_handler process_pending_withdrawals get_timed_out mark_completed
handed_out = (refl, refl, refl, refl, refl)

-- To restore nothing into a handler that has withdrawals lets the next one replace the first.
replaced :
    let h = restore number_of [] (restore number_of saved (new_handler 300)) in
    (queue_withdrawal strokes 10 "0x56" 7 none h).1.next_id ≡ 2
unfolding restore new_handler queue_withdrawal
replaced = refl
