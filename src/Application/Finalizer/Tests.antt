-- ===== src/Application/Finalizer/Tests.antt =====
-- A finalizer that waits, commits a block, and is asked for a height.
use sahya_net.Prelude.{refl, true, false, none, some, List, [], ◌∷◌, arith}
use sahya_net.Types.Sample.{sample}
use sahya_net.Types.Sample.Blocks.{zero_hash, child}
use sahya_net.Application.Finalizer.{
  forkchoice_of, Finalizer, height_notify, new_block, Answers, run,
}
use sahya_net.Application.Notifier.Waiters.{waiting}
use sahya_net.Application.Finalizer.Order.{IsRun, run_in_order}
use sahya_net.Application.Finalizer.Notifications.{
  IsCaughtUp, Balances, run-IsCaughtUp, run-Balances,
}

abbrev idle_answers : Answers sample
idle_answers = record { block = none; is_valid = false; repaired = false; wake = height_notify 1 8 }

abbrev block_answers : Answers sample
block_answers = record { block = some child; is_valid = true; repaired = false; wake = new_block }

abbrev three_turns : List (Answers sample)
three_turns = idle_answers ∷ block_answers ∷ idle_answers ∷ []

abbrev fresh : Finalizer
fresh = record {
  last_indexed = 0;
  pending = [];
  metadata = none;
  durable = none;
  forkchoice = forkchoice_of zero_hash;
}

run_in_order_example :
    IsRun sample fresh (run sample three_turns fresh).0 (run sample three_turns fresh).1
run_in_order_example = run_in_order sample three_turns fresh (omega arith)

run-IsCaughtUp_example : IsCaughtUp (run sample three_turns fresh).0
unfolding waiting
run-IsCaughtUp_example =
    run-IsCaughtUp sample three_turns fresh (omega arith)
      (record { ascending = tt; none_due = λ height le. refl })

run-Balances_example :
    Balances sample fresh (run sample three_turns fresh).0 (run sample three_turns fresh).1
run-Balances_example = run-Balances sample three_turns fresh
