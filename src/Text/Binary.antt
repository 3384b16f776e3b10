-- ===== src/Text/Binary.antt =====
-- Little-endian words in byte sequences, as `encoding/binary` puts and reads them.
use agent_task.Prelude.{
  ℕ, zero, suc, ◌+◌, ◌*◌, ◌/◌, ◌%◌, ◌^◌, ◌<◌, ◌≡◌, refl, [], ◌∷◌, arith, length,
}
use agent_task.Text.Compare.{Bytes}

-- `binary.LittleEndian.PutUint64` and the like, for a width in bytes.
unfoldable pub put_le : ℕ → ℕ → Bytes
put_le zero v = []
put_le (suc n) v = v % 256 ∷ put_le n (v / 256)

-- `binary.LittleEndian.Uint64` and the like.
unfoldable pub get_le : Bytes → ℕ
get_le [] = 0
get_le (b ∷ bs) = b + 256 * get_le bs

pub length-put_le : (n v : ℕ) → length (put_le n v) ≡ n
unfolding put_le
length-put_le zero v = refl
length-put_le (suc n) v = omega (arith, length-put_le n (v / 256))

pub get_le-put_le : (n v : ℕ) → v < 256 ^ n → get_le (put_le n v) ≡ v
unfolding put_le get_le
get_le-put_le zero v h = omega arith
get_le-put_le (suc n) v h =
    let e : 256 ^ suc n ≡ 256 * 256 ^ n = omega arith in
    omega (arith, get_le-put_le n (v / 256) (omega (arith, e, h)))
