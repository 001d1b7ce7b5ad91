-- ===== src/Image/Deflate/Huffman.antt =====
-- `_Huffman`: canonical codes from a list of code lengths, and decoding by them.
use pythonos.Prelude.{
  ℕ, zero, suc, ◌+◌, ◌-◌, ◌*◌, ◌≡◌, ◌↔◌, List, [], ◌∷◌, Option, none, some, Bool, true, ◌&&◌,
  Outcome, ok, err, raise, pure, ◌>>=◌, Dict, lookup, insert, Eq, ◌==◌, ltb, if◌then◌else◌, get_or,
  set, replicate, arith,
}
use pythonos.Image.Deflate.Bits.{DeflateError, bad_code_length, bad_code, Read, read_bits}

-- A key of `codes`: (bit length, code).
pub record CodeKey : Type 0 where
  pub bits : ℕ
  pub code : ℕ

abbrev code_key_eq : CodeKey → CodeKey → Bool
code_key_eq a b = a.bits == b.bits && a.code == b.code

pub code_key_eq_iff : (a b : CodeKey) → (code_key_eq a b ≡ true) ↔ (a ≡ b)
code_key_eq_iff a b = ground arith

instance abbrev pub Eq-CodeKey : Eq CodeKey
Eq-CodeKey = record { beq = code_key_eq; beq_iff = code_key_eq_iff }

abbrev pub Codes : Type 0
Codes = Dict CodeKey ℕ

-- The counting loop; `none` is the ValueError for a length above 15.
unfoldable pub count_lengths : List ℕ → List ℕ → Option (List ℕ)
count_lengths [] counts = some counts
count_lengths (l ∷ lengths) counts =
    let rest = count_lengths lengths (set counts l (get_or counts l 0 + 1)) in
    if ltb 15 l then none else rest

-- `for bits in range(1, 16)`: from `bits`, with `n` rounds to go.
unfoldable pub first_codes : ℕ → ℕ → ℕ → List ℕ → List ℕ → List ℕ
first_codes bits zero code counts next_code = next_code
first_codes bits (suc n) code counts next_code =
    let code' = (code + get_or counts (bits - 1) 0) * 2 in
    first_codes (suc bits) n code' counts (set next_code bits code')

-- The loop over `enumerate(lengths)`, from symbol `n`.
unfoldable pub assign_codes : ℕ → List ℕ → List ℕ → Codes → Codes
assign_codes n [] next_code codes = codes
assign_codes n (l ∷ lengths) next_code codes =
    let code = get_or next_code l 0 in
    assign_codes (suc n) lengths (if l == 0 then next_code else set next_code l (code + 1))
      (if l == 0 then codes else insert (record { bits = l; code = code }) n codes)

unfoldable pub codes_from : List ℕ → Option (List ℕ) → Outcome DeflateError Codes
unfolding first_codes assign_codes
codes_from lengths none = err bad_code_length
codes_from lengths (some counts) =
    ok (assign_codes 0 lengths (first_codes 1 15 0 (set counts 0 0) (replicate 16 0)) [])

-- The constructor.
unfoldable pub huffman : List ℕ → Outcome DeflateError Codes
unfolding codes_from count_lengths
huffman lengths = codes_from lengths (count_lengths lengths (replicate 16 0))

-- What a round of `decode` does with the symbol it finds, or goes on with.
unfoldable pub found_or : Option ℕ → Read ℕ → Read ℕ
found_or (some sym) more = pure sym
found_or none more = more

-- `decode`, from a code of `bits` bits, with `n` rounds to go.
unfoldable pub decode_from : Codes → ℕ → ℕ → ℕ → Read ℕ
unfolding found_or
decode_from codes bits zero code = raise bad_code
decode_from codes bits (suc n) code = do
  bit ← read_bits 1
  found_or (lookup (record { bits = suc bits; code = code * 2 + bit }) codes)
      (decode_from codes (suc bits) n (code * 2 + bit))

unfoldable pub decode : Codes → Read ℕ
unfolding decode_from
decode codes = decode_from codes 0 15 0
