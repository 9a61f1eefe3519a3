-- ===== src/Process/MessageQueue.antt =====
-- kernel/src/process/ipc.rs, `Message` and `MessageQueue`: a ring of 32 messages. A method returns
-- the queue beside its result.
pub mod Refine
pub mod Payload
mod Tests
use star_os_kernel.Prelude.{
  ℕ, zero, suc, ◌+◌, ◌-◌, ◌*◌, ◌%◌, ◌≡◌, List, [], ◌∷◌, ◌++◌, Option, none, some, Bool, Array,
  store, Result, ok, err, length, take, drop, replicate, ltb, leb, ◌==◌, if◌then◌else◌, min,
}
use star_os_kernel.Process.Ids.{TaskId}
use star_os_kernel.Error.{KernelError, invalid_parameter, resource_exhausted}

-- `data` is six 64-bit words.
pub record Message : Type 0 where
  pub sender : TaskId
  pub msg_type : ℕ
  pub payload : List ℕ

pub record MessageQueue : Type 0 where
  pub messages : Array (Option Message)
  pub head : ℕ
  pub tail : ℕ
  pub count : ℕ

unfoldable pub new_message : TaskId → ℕ → Message
new_message sender msg_type = record {
  sender = sender;
  msg_type = msg_type;
  payload = replicate 6 0;
}

unfoldable pub with_data : TaskId → ℕ → List ℕ → Message
with_data sender msg_type words = record { sender = sender; msg_type = msg_type; payload = words }

unfoldable pub new : MessageQueue
new = record { messages = λ i. none; head = 0; tail = 0; count = 0 }

abbrev pub max_message_size : ℕ
max_message_size = 4096

-- `size_of::<Message>()`: two words and the six of `data`.
abbrev pub message_size : ℕ
message_size = 64

unfoldable pub send : MessageQueue → Message → MessageQueue × Result (Unit {0}) KernelError
send q msg =
    if ltb max_message_size message_size
    then (q, err (invalid_parameter "Message exceeds maximum size of 4096 bytes"))
    else if leb 32 q.count
    then (q, err resource_exhausted)
    else (
      record q {
        messages = store q.messages q.tail (some msg);
        tail = (q.tail + 1) % 32;
        count = q.count + 1;
      },
      ok tt,
    )

-- A little-endian word of the bytes, the first byte lowest.
unfoldable pub le_word : List ℕ → ℕ
le_word [] = 0
le_word (b ∷ bs) = b + 256 * le_word bs

unfoldable pub words : ℕ → List ℕ → List ℕ
words zero bs = []
words (suc n) bs = le_word (take 8 bs) ∷ words n (drop 8 bs)

-- `copy_nonoverlapping` of `copy_len` bytes onto the six zero words.
unfoldable pub copy_payload : ℕ → List ℕ → List ℕ
copy_payload copy_len bytes = words 6 (take copy_len bytes ++ replicate (48 - copy_len) 0)

unfoldable pub send_data :
    MessageQueue → TaskId → ℕ → List ℕ → MessageQueue × Result (Unit {0}) KernelError
send_data q sender msg_type bytes =
    if ltb max_message_size (length bytes)
    then (q, err (invalid_parameter "Message data exceeds 4096 bytes"))
    else send q (record (new_message sender msg_type) {
      payload = copy_payload (min (length bytes) 48) bytes;
    })

unfoldable pub receive : MessageQueue → MessageQueue × Option Message
receive q = if q.count == 0 then (q, none) else (
  record q {
    messages = store q.messages q.head none;
    head = (q.head + 1) % 32;
    count = q.count - 1;
  },
  q.messages q.head,
)

unfoldable pub len : MessageQueue → ℕ
len q = q.count

unfoldable pub is_empty : MessageQueue → Bool
unfolding len
is_empty q = len q == 0

unfoldable pub is_full : MessageQueue → Bool
unfolding len
is_full q = leb 32 (len q)
