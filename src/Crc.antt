-- ===== src/Crc.antt =====
-- include/ldcp/utility.h, Utility::CalculateCRC16: the checksum of messages and of OOB packets.
-- A byte is a number below 256. Where the source reads a signed char, only its low eight bits
-- reach the result, so the byte stands for both readings.
pub mod Bits
pub mod Reference
pub mod Detection
use ldcp_sdk.Prelude.{ℕ, ◌*◌, ◌/◌, ◌%◌, ◌^◌, bit_xor, List, [], ◌∷◌}

-- The body of the loop: `checksum` is a uint16_t and `value` a uint8_t.
unfoldable pub crc_step : ℕ → ℕ → ℕ
crc_step checksum byte =
    let value : ℕ = bit_xor (checksum / 2 ^ 8) byte % 2 ^ 8 in
    let mixed : ℕ = bit_xor value (value / 2 ^ 4) % 2 ^ 8 in
    bit_xor
      (bit_xor (bit_xor (checksum * 2 ^ 8) (mixed * 2 ^ 12 % 2 ^ 16)) (mixed * 2 ^ 5 % 2 ^ 16))
      mixed
    % 2 ^ 16

unfoldable pub crc_loop : ℕ → List ℕ → ℕ
crc_loop checksum [] = checksum
crc_loop checksum (byte ∷ rest) = crc_loop (crc_step checksum byte) rest

unfoldable pub calculate_crc16 : List ℕ → ℕ
calculate_crc16 bytes = crc_loop 0xFFFF bytes
