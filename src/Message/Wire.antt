-- ===== src/Message/Wire.antt =====
-- The layout of the header loses nothing.
use comm_system.Prelude.{ℕ, zero, suc, ◌*◌, ◌/◌, ◌^◌, ◌<◌, ◌≡◌, refl, ap, length, arith}
use native.Mathlib.Nat.{pow-suc}
use comm_system.Message.{CommMsgHeader, le_bytes, le_value, encode, decode, IsHeader}

pub length-le_bytes : (k v : ℕ) → length (le_bytes k v) ≡ k
length-le_bytes zero v = refl
length-le_bytes (suc k) v = ap suc (length-le_bytes k (v / 256))

le_value-le_bytes : (k v : ℕ) → v < 256 ^ k → le_value (le_bytes k v) ≡ v
le_value-le_bytes zero v h = omega arith
le_value-le_bytes (suc k) v h =
    let h' : v < 256 ^ k * 256 = rw pow-suc at h in
    omega (arith, le_value-le_bytes k (v / 256) (omega arith))

pub length-encode : (h : CommMsgHeader) → length (encode h) ≡ 24
unfolding encode
length-encode h = refl

-- The 24 bytes of a header whose members fit their types, read as a header, give the same members,
-- the padding included.
pub decode-encode : (h : CommMsgHeader) → IsHeader h → decode (encode h) ≡ h
unfolding encode decode
decode-encode h v = λ i. record {
  msg_type = le_value-le_bytes 4 h.msg_type v.type_fits i;
  padding = le_value-le_bytes 4 h.padding v.padding_fits i;
  msg_len = le_value-le_bytes 8 h.msg_len v.len_fits i;
  msg_write_len = le_value-le_bytes 8 h.msg_write_len v.write_len_fits i;
}
