-- ===== src/Registry/Ids.antt =====
-- src/actor/process_registry.cpp: Uint64ToID and NextID, the names of anonymous actors.
use Prim.Native.String.{String}
use Prim.Native.Char.{code}
use protoactor_cpp.Base.{
  ℕ, zero, suc, ◌+◌, ◌*◌, ◌/◌, ◌%◌, ◌^◌, ◌<◌, ◌≡◌, refl, ap, ◌∙◌, Bool, true, false, ◌&&◌, Option,
  none, some, [], ◌∷◌, arith, Bytes, ltb, eqb, if◌then◌else◌, get_elem?, Bool-cases, inl, inr, not,
  ltb→lt, lt→ltb,
}

abbrev pub codes : String → Bytes
codes String.[] = []
codes (String.◌∷◌ c s) = code c ∷ codes s

unfoldable pub digits : Bytes
digits = codes "0123456789abcdefghijklmnopqrstuvwxyzABCDEFGHIJKLMNOPQRSTUVWXYZ~+"

abbrev or_zero : Option ℕ → ℕ
or_zero none = 0
or_zero (some c) = c

unfoldable pub digit : ℕ → ℕ
unfolding digits
digit d = or_zero (get_elem? digits d)

-- The loop of Uint64ToID on fuel, a round for each digit; `u & 0x3f` is `u % 64` and `u >>= 6` is
-- `u / 64`. `none` means that the fuel ran out.
unfoldable pub id_loop : ℕ → ℕ → Bytes → Option Bytes
id_loop zero u result = none
id_loop (suc fuel) u result =
    let more = id_loop fuel (u / 64) (digit (u % 64) ∷ result) in
    if ltb u 64 then some (digit u ∷ result) else more

-- Eleven digits hold every uint64_t.
unfoldable pub uint64_to_id : ℕ → Option Bytes
unfolding id_loop
uint64_to_id u = id_loop 11 u (b'$' ∷ [])

-- An independent reader of such a name: digits in base 64, most significant first, up to the `$`.
unfoldable pub index_from : ℕ → Bytes → ℕ → ℕ
index_from i [] c = i
index_from i (d ∷ ds) c = let rest = index_from (i + 1) ds c in if eqb d c then i else rest

unfoldable pub read_id : ℕ → Bytes → ℕ
read_id acc [] = acc
read_id acc (c ∷ cs) =
    let rest = read_id (acc * 64 + index_from 0 digits c) cs in if eqb c b'$' then acc else rest

abbrev holds_below : (ℕ → Bool) → ℕ → Bool
holds_below test zero = true
holds_below test (suc bound) = holds_below test bound && test bound

holds_below_sound :
    (test : ℕ → Bool) (bound x : ℕ) → x < bound → holds_below test bound ≡ true → test x ≡ true
holds_below_sound test zero x below h = absurd (omega arith)
holds_below_sound test (suc bound) x below h = ground (arith, holds_below_sound test bound x)

abbrev readable : ℕ → Bool
readable d = eqb (index_from 0 digits (digit d)) d && not (eqb (digit d) b'$')

digit_table : holds_below readable 64 ≡ true
unfolding digit digits index_from
digit_table = refl

digit_readable :
    (d : ℕ) → d < 64 → (index_from 0 digits (digit d) ≡ d) × (eqb (digit d) b'$' ≡ false)
digit_readable d h = ground (arith, holds_below_sound readable 64 d h digit_table)

read_digit :
    (acc d : ℕ) (cs : Bytes) → d < 64 → read_id acc (digit d ∷ cs) ≡ read_id (acc * 64 + d) cs
unfolding read_id
read_digit acc d cs h = let (e, f) = digit_readable d h in rw (f, e)

-- The numbers of at most `n` digits in base 64 are those below `room n`.
abbrev room : ℕ → ℕ
room zero = 1
room (suc n) = 64 * room n

abbrev Reads : Option Bytes → ℕ → Bytes → Type 0
Reads o u rest = (s : Bytes) × (o ≡ some s) × (read_id 0 s ≡ read_id u rest)

last_digit : (fuel u : ℕ) (rest : Bytes) → u < 64 → Reads (id_loop (suc fuel) u rest) u rest
unfolding id_loop
last_digit fuel u rest h = (
  digit u ∷ rest,
  rw (lt→ltb u 64 h),
  read_digit 0 u rest h ∙ ap (λ n. read_id n rest) zero_digits,
)
  where
    zero_digits : 0 * 64 + u ≡ u
    zero_digits = omega arith

more_digits :
    (fuel u : ℕ) (rest : Bytes)
    → ltb u 64 ≡ false
    → Reads (id_loop (suc fuel) (u / 64) (digit (u % 64) ∷ rest)) (u / 64) (digit (u % 64) ∷ rest)
    → Reads (id_loop (suc (suc fuel)) u rest) u rest
unfolding id_loop
more_digits fuel u rest big (s, made, reads) =
    let e : u / 64 * 64 + u % 64 ≡ u = omega arith in
    (
      s,
      rw big made,
      reads ∙ read_digit (u / 64) (u % 64) rest (omega arith) ∙ ap (λ n. read_id n rest) e,
    )

-- With enough fuel the loop ends, and what it wrote in front of `rest` reads back as `u`.
id_loop-Reads :
    (fuel u : ℕ) (rest : Bytes) → u < room (suc fuel) → Reads (id_loop (suc fuel) u rest) u rest
id_loop-Reads zero u rest h = last_digit zero u rest (omega arith)
id_loop-Reads (suc fuel) u rest h = elim (Bool-cases (ltb u 64)) [
  | inl small ↦ last_digit (suc fuel) u rest (ltb→lt u 64 small)
  | inr big ↦
      more_digits fuel u rest big
        (id_loop-Reads fuel (u / 64) (digit (u % 64) ∷ rest) (omega arith))
]

-- For every uint64_t the conversion ends, and the name reads back as the number.
pub uint64_to_id-read :
    (u : ℕ) → u < 2 ^ 64 → (s : Bytes) × (uint64_to_id u ≡ some s) × (read_id 0 s ≡ u)
unfolding uint64_to_id
uint64_to_id-read u h =
    let (s, made, reads) = id_loop-Reads 10 u (b'$' ∷ []) (omega arith) in
    (s, made, reads ∙ unfold read_id in refl)
