-- ===== src/Process/MessageQueue/Tests.antt =====
-- Message queues at concrete states.
use star_os_kernel.Prelude.{◌≡◌, List, [], ◌∷◌, arith}
use star_os_kernel.Process.MessageQueue.{Message, MessageQueue, new, send}
use star_os_kernel.Process.MessageQueue.Refine.{
  Represents, new-Represents, send-Represents, Op, sends, receives, run, run_fifo, run_refines,
}

abbrev hello : Message
hello = record { sender = 1; msg_type = 42; payload = 5 ∷ 0 ∷ 0 ∷ 0 ∷ 0 ∷ 0 ∷ [] }

abbrev one_message : MessageQueue
one_message = (send new hello).0

one_message-Represents : Represents one_message (hello ∷ [])
one_message-Represents = (send-Represents hello new-Represents (omega arith)).0

abbrev script : List Op
script = sends (record hello { sender = 2 }) ∷ receives ∷ receives ∷ receives ∷ []

run_refines_example : run one_message script ≡ run_fifo (hello ∷ []) script
run_refines_example = run_refines script one_message (hello ∷ []) one_message-Represents
