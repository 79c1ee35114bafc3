-- ===== src/Twai/Payload.antt =====
-- How esp32p4_ev_function/drivers/can packs up to eight payload bytes into two words of a message,
-- and reads them back.
use ulmk_boards.Base.{ℕ, zero, suc, ◌+◌, ◌-◌, ◌*◌, List, [], ◌∷◌, bit_or, take, drop, min}
use ulmk_boards.Base.Word.{u8, ◌<<◌, ◌>>>◌}

-- `w |= (uint32_t)data[i] << (8u * k)`, for `k` from the given one on: the byte `data[i]` stands
-- at `k` in its word.
unfoldable pub or_payload : ℕ → List ℕ → ℕ → ℕ
or_payload k [] w = w
or_payload k (d ∷ ds) w = or_payload (k + 1) ds (bit_or w (d << (8 * k)))

-- The two loops over `n` bytes: the words for the first four and for the others.
unfoldable pub low_word : ℕ → List ℕ → ℕ
low_word n bytes = or_payload 0 (take (min n 4) bytes) 0

unfoldable pub high_word : ℕ → List ℕ → ℕ
high_word n bytes = or_payload 0 (take (n - 4) (drop 4 bytes)) 0

-- `(uint8_t)(w >> (8u * k))`, for `left` bytes from `k` on.
unfoldable pub payload_of : ℕ → ℕ → ℕ → List ℕ
payload_of zero k w = []
payload_of (suc left) k w = u8 (w >>> (8 * k)) ∷ payload_of left (k + 1) w
