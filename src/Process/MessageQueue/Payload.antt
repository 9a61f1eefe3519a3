-- ===== src/Process/MessageQueue/Payload.antt =====
-- What `send_data` of kernel/src/process/ipc.rs keeps of the caller's bytes.
use star_os_kernel.Prelude.{
  ℕ, zero, suc, ◌+◌, ◌-◌, ◌*◌, ◌/◌, ◌%◌, ◌<◌, ◌≤◌, ◌≡◌, refl, sym, ap, ap₂, ◌∙◌, List, [], ◌∷◌,
  ◌++◌, ok, length, length-append, length-take, length-drop, length-replicate, take, drop,
  replicate, take-append-drop, take-All, drop-All, append-All, replicate-All, take_all, take_append,
  All, min, le→not_ltb, arith,
}
use star_os_kernel.Process.Ids.{TaskId}
use star_os_kernel.Process.MessageQueue.{
  Message, MessageQueue, new_message, send, send_data, le_word, words, copy_payload,
}
use star_os_kernel.Process.MessageQueue.Refine.{Represents, send-Represents}

abbrev IsByte : ℕ → Type 0
IsByte b = b < 256

-- The bytes of words, as a receiver on the same machine reads them.
le_bytes : ℕ → ℕ → List ℕ
le_bytes zero w = []
le_bytes (suc n) w = w % 256 ∷ le_bytes n (w / 256)

unfoldable pub payload_bytes : List ℕ → List ℕ
unfolding le_bytes
payload_bytes [] = []
payload_bytes (w ∷ ws) = le_bytes 8 w ++ payload_bytes ws

le_bytes-le_word : (bs : List ℕ) → All IsByte bs → le_bytes (length bs) (le_word bs) ≡ bs
unfolding le_bytes le_word
le_bytes-le_word [] h = refl
le_bytes-le_word (b ∷ bs) h = rw (
  (let e : (b + 256 * le_word bs) % 256 ≡ b = omega arith in e),
  (let e : (b + 256 * le_word bs) / 256 ≡ le_word bs = omega arith in e),
  le_bytes-le_word bs h.1,
)

payload_bytes-words :
    (n : ℕ) (bs : List ℕ) → length bs ≡ 8 * n → All IsByte bs → payload_bytes (words n bs) ≡ bs
unfolding payload_bytes words
payload_bytes-words zero [] e h = refl
payload_bytes-words zero (b ∷ bs) e h = absurd (omega arith)
payload_bytes-words (suc n) bs e h =
    ap₂ ◌++◌ first
      (payload_bytes-words n (drop 8 bs) (omega (arith, length-drop 8 bs)) (drop-All IsByte 8 bs h))
    ∙ take-append-drop 8 bs
  where
    eight : length (take 8 bs) ≡ 8
    eight = omega (arith, length-take 8 bs)

    first : le_bytes 8 (le_word (take 8 bs)) ≡ take 8 bs
    first =
        ap (λ (k : ℕ). le_bytes k (le_word (take 8 bs))) (sym eight)
        ∙ le_bytes-le_word (take 8 bs) (take-All IsByte 8 bs h)

payload_bytes-copy_payload :
    (bs : List ℕ)
    → All IsByte bs
    → payload_bytes (copy_payload (min (length bs) 48) bs)
      ≡ take (min (length bs) 48) bs ++ replicate (48 - min (length bs) 48) 0
unfolding copy_payload
payload_bytes-copy_payload bs h =
    let kept = take (min (length bs) 48) bs in
    let zeros : List ℕ = replicate (48 - min (length bs) 48) 0 in
    payload_bytes-words 6 (kept ++ zeros)
      (omega (
        arith,
        length-append kept zeros,
        length-take (min (length bs) 48) bs,
        length-replicate {A = ℕ} (48 - min (length bs) 48) 0,
      ))
      (append-All IsByte kept zeros (take-All IsByte (min (length bs) 48) bs h)
        (replicate-All IsByte (48 - min (length bs) 48) 0 (omega arith)))

-- The message that `send_data` puts into the queue.
abbrev pub data_message : TaskId → ℕ → List ℕ → Message
data_message sender msg_type bytes = record (new_message sender msg_type) {
  payload = copy_payload (min (length bytes) 48) bytes;
}

send_data_lem :
    (q : MessageQueue) (sender : TaskId) (msg_type : ℕ) (bytes : List ℕ)
    → length bytes ≤ 4096
    → send_data q sender msg_type bytes ≡ send q (data_message sender msg_type bytes)
unfolding send_data
send_data_lem q sender msg_type bytes h = rw (le→not_ltb 4096 (length bytes) h)

copy_payload_prefix :
    (common xs : List ℕ)
    → length common ≡ 48
    → copy_payload (min (length (common ++ xs)) 48) (common ++ xs) ≡ copy_payload 48 common
unfolding copy_payload
copy_payload_prefix common xs e = rw (
  (let full : min (length (common ++ xs)) 48 ≡ 48 = omega (arith, length-append common xs) in full),
  take_append common xs 48 e,
  take_all 48 common (omega arith),
)

-- A payload of at most 48 bytes, sent to a queue with room, is enqueued as the newest message,
-- whose words are those bytes followed by zeros.
pub send_data_keeps :
    {q : MessageQueue} {xs : List Message} (sender : TaskId) (msg_type : ℕ) (bytes : List ℕ)
    → Represents q xs
    → length xs < 32
    → length bytes ≤ 48
    → All IsByte bytes
    → Represents
        (send_data q sender msg_type bytes).0
        (xs ++ data_message sender msg_type bytes ∷ [])
      × ((send_data q sender msg_type bytes).1 ≡ ok tt)
      × (payload_bytes (data_message sender msg_type bytes).payload
          ≡ bytes ++ replicate (48 - length bytes) 0)
send_data_keeps {q} sender msg_type bytes r room short h =
    rw (send_data_lem q sender msg_type bytes (omega arith)) (
      (send-Represents (data_message sender msg_type bytes) r room).0,
      (send-Represents (data_message sender msg_type bytes) r room).1,
      payload_bytes-copy_payload bytes h
          ∙ ap₂ (λ (k : List ℕ) (n : ℕ). k ++ replicate n 0)
              (take_all (min (length bytes) 48) bytes (omega arith)) (omega arith),
    )

-- Of a longer payload, which the size check lets pass up to 4096 bytes, the bytes from the 49th on
-- are dropped: two payloads with the same first 48 bytes leave the same queue and result.
pub send_data_truncates :
    (q : MessageQueue) (sender : TaskId) (msg_type : ℕ) (common xs ys : List ℕ)
    → length common ≡ 48
    → length (common ++ xs) ≤ 4096
    → length (common ++ ys) ≤ 4096
    → send_data q sender msg_type (common ++ xs) ≡ send_data q sender msg_type (common ++ ys)
send_data_truncates q sender msg_type common xs ys e hx hy =
    send_data_lem q sender msg_type (common ++ xs) hx
    ∙ ap (λ (p : List ℕ). send q (record (new_message sender msg_type) { payload = p }))
        (copy_payload_prefix common xs e ∙ sym (copy_payload_prefix common ys e))
    ∙ sym (send_data_lem q sender msg_type (common ++ ys) hy)
