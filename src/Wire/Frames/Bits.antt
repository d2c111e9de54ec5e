-- ===== src/Wire/Frames/Bits.antt =====
-- Bit facts about a frame's bytes, read off tables, and the big-endian lengths.
use Prim.Native.Nat.{bit_and, bit_or, bit_xor}
use native.Mathlib.Nat.{pow-suc}
use gc_runtime_nomad.Base.{
  ℕ, zero, suc, ◌+◌, ◌*◌, ◌/◌, ◌%◌, ◌^◌, ◌<◌, Bool, true, ◌&&◌, [], ◌∷◌, ◌++◌, Bytes, ◌≡◌, refl, ap,
  ◌∙◌, length, ◌==◌, ==_iff, arith, length-append, All-append, IsBytes,
}
use gc_runtime_nomad.Wire.Frames.{put_uint, get_uint, mask}

-- A test passes at each of the first `count` numbers.
passes : (ℕ → Bool) → ℕ → Bool
passes test zero = true
passes test (suc count) = passes test count && test count

passes_at : (test : ℕ → Bool) (count x : ℕ) → x < count → passes test count ≡ true → test x ≡ true
unfolding passes
passes_at test zero x small table = absurd (omega (arith, small))
passes_at test (suc count) x small table = ground (arith, passes_at test count x, small, table)

opcode_table : passes (λ op. bit_and (bit_or 0x80 op) 0x0f == op) 16 ≡ true
unfolding passes
opcode_table = refl

pub opcode_bits : (op : ℕ) → op < 16 → bit_and (bit_or 0x80 op) 0x0f ≡ op
opcode_bits op h = (==_iff _ op).0 (passes_at _ 16 op h opcode_table)

-- The low seven bits and the mask bit of a frame's second byte.
abbrev pub Second : ℕ → ℕ → Type 0
Second flag n = (bit_and (bit_or flag n) 0x7f ≡ n) × (bit_and (bit_or flag n) 0x80 ≡ flag)

LowTable : (flag : ℕ) → Type 0
LowTable flag =
    (passes (λ n. bit_and (bit_or flag n) 0x7f == n) 128 ≡ true)
    × (passes (λ n. bit_and (bit_or flag n) 0x80 == flag) 128 ≡ true)

low_tables : LowTable 0 × LowTable 0x80
unfolding LowTable passes
low_tables = ((refl, refl), (refl, refl))

pub Second-plain : (n : ℕ) → n < 128 → Second 0 n
unfolding LowTable
Second-plain n h = (
  (==_iff _ n).0 (passes_at _ 128 n h low_tables.0.0),
  (==_iff _ 0).0 (passes_at _ 128 n h low_tables.0.1),
)

pub Second-masked : (n : ℕ) → n < 128 → Second 0x80 n
unfolding LowTable
Second-masked n h = (
  (==_iff _ n).0 (passes_at _ 128 n h low_tables.1.0),
  (==_iff _ 0x80).0 (passes_at _ 128 n h low_tables.1.1),
)

xor_table : passes (λ k. passes (λ b. bit_xor (bit_xor b k) k == b) 256) 256 ≡ true
unfolding passes
xor_table = refl

pub xor_twice : (b k : ℕ) → b < 256 → k < 256 → bit_xor (bit_xor b k) k ≡ b
xor_twice b k hb hk = (==_iff _ b).0 (passes_at _ 256 b hb (passes_at _ 256 k hk xor_table))

pub mask-mask :
    (key payload : Bytes)
    → 0 < length key
    → IsBytes key
    → IsBytes payload
    → mask key (mask key payload) ≡ payload
unfolding mask
mask-mask [] payload h hk hp = absurd (omega arith)
mask-mask (k ∷ key) [] h hk hp = refl
mask-mask (k ∷ key) (b ∷ payload) h hk hp = cc (
  xor_twice b k hp.0 hk.0,
  mask-mask (key ++ k ∷ []) payload (omega (arith, length-append {0} key (k ∷ [])))
      (All-append _ key (k ∷ []) hk.1 (hk.0, tt)) hp.1,
)

pub length-mask :
    (key payload : Bytes) → 0 < length key → length (mask key payload) ≡ length payload
unfolding mask
length-mask [] payload h = absurd (omega arith)
length-mask (k ∷ key) [] h = refl
length-mask (k ∷ key) (b ∷ payload) h =
    ap suc (length-mask (key ++ k ∷ []) payload (omega (arith, length-append {0} key (k ∷ []))))

get_uint-append :
    (acc b : ℕ) (bytes : Bytes) → get_uint acc (bytes ++ b ∷ []) ≡ get_uint acc bytes * 256 + b
unfolding get_uint
get_uint-append acc b [] = refl
get_uint-append acc b (c ∷ bytes) = get_uint-append (acc * 256 + c) b bytes

pub get_uint-put_uint : (k n : ℕ) → n < 256 ^ k → get_uint 0 (put_uint k n) ≡ n
unfolding put_uint
get_uint-put_uint zero n h = unfold get_uint in omega arith
get_uint-put_uint (suc k) n h =
    get_uint-append 0 (n % 256) (put_uint k (n / 256))
    ∙ omega (arith, get_uint-put_uint k (n / 256) (omega (arith, pow-suc 256 k)))

pub length-put_uint : (k n : ℕ) → length (put_uint k n) ≡ k
unfolding put_uint
length-put_uint zero n = refl
length-put_uint (suc k) n =
    omega (
      arith,
      length-put_uint k (n / 256),
      length-append {0} (put_uint k (n / 256)) ((n % 256) ∷ []),
    )
