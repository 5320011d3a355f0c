-- ===== src/Gateway/Wire.antt =====
-- What `encode` and `decode` of the messages in clientlibs/js/proto/apigateway/apigateway.ts share:
-- the calls of the package @bufbuild/protobuf/wire, which are a parameter, and the loop that
-- every `decode` is.
pub mod Reads
pub mod Sized
pub mod Fields
pub mod Returns
use vectron.Prelude.{
  ℕ, zero, suc, ◌+◌, ◌-◌, ◌<◌, ◌%◌, ◌≡◌, String, Bool, true, false, ◌||◌, Option, none, some, List,
  [], ◌∷◌, ◌++◌, length, ℤ, pos, negsuc, ltb, ◌==◌, if◌then◌else◌, not, is_empty_str, is_zero,
  str_eq, pos_part, neg_part, ◌≤◌,
}

abbrev pub Bytes : Type 0
Bytes = List ℕ

-- What is left to read, as a function on bytes gives it; `none` is an exception.
abbrev pub Taker : Type 0 → Type 0
Taker V = Bytes → Option (V × Bytes)

-- The methods of `BinaryWriter` and of `BinaryReader`. A number outside of its range makes the
-- writer throw. A number loses precision as a 32-bit float, and a text that is read as a uint64
-- or an int64 comes back in decimal form.
pub record Wire (F : Type 0) : Type 0 where
  pub put_uint32 : ℤ → Option Bytes
  pub put_int32 : ℤ → Option Bytes
  pub put_float : F → Option Bytes
  pub to_float32 : F → F
  pub is_float32 : F → Bool
  pub put_uint64 : String → Option Bytes
  pub to_uint64 : String → String
  pub is_uint64 : String → Bool
  pub put_int64 : String → Option Bytes
  pub to_int64 : String → String
  pub is_int64 : String → Bool
  pub put_string : String → Bytes
  pub put_bool : Bool → Bytes
  pub take_uint32 : Taker ℕ
  pub take_int32 : Taker ℤ
  pub take_float : Taker F
  pub take_uint64 : Taker String
  pub take_int64 : Taker String
  pub take_string : Taker String
  pub take_bool : Taker Bool
  pub skip : ℕ → Bytes → Option Bytes

-- What is written is read back, whatever follows it; a uint32 takes a byte at least; and numbers in
-- their range are written.
pub record IsSound {F : Type 0} (x : Wire F) : Type 0 where
  pub uint32 :
      (n : ℕ) (bs rest : Bytes)
      → x.put_uint32 (pos n) ≡ some bs
      → x.take_uint32 (bs ++ rest) ≡ some (n, rest)
  pub uint32_fits : (n : ℕ) → n < 4294967296 → (bs : Bytes) × (x.put_uint32 (pos n) ≡ some bs)
  pub float_fits : (v : F) → x.is_float32 v ≡ true → (bs : Bytes) × (x.put_float v ≡ some bs)
  pub int32_fits :
      (z : ℤ)
      → pos_part z < 2147483648
      → neg_part z ≤ 2147483648
      → (bs : Bytes) × (x.put_int32 z ≡ some bs)
  pub int64_fits : (s : String) → x.is_int64 s ≡ true → (bs : Bytes) × (x.put_int64 s ≡ some bs)
  pub signed : (n : ℕ) → x.put_uint32 (negsuc n) ≡ none
  pub nonempty : (z : ℤ) (bs : Bytes) → x.put_uint32 z ≡ some bs → 0 < length bs
  pub int32 :
      (z : ℤ) (bs rest : Bytes)
      → x.put_int32 z ≡ some bs
      → x.take_int32 (bs ++ rest) ≡ some (z, rest)
  pub float :
      (v : F) (bs rest : Bytes)
      → x.put_float v ≡ some bs
      → x.take_float (bs ++ rest) ≡ some (x.to_float32 v, rest)
  pub float_nonempty : (v : F) (bs : Bytes) → x.put_float v ≡ some bs → 0 < length bs
  pub uint64 :
      (s : String) (bs rest : Bytes)
      → x.put_uint64 s ≡ some bs
      → x.take_uint64 (bs ++ rest) ≡ some (x.to_uint64 s, rest)
  pub uint64_fits : (s : String) → x.is_uint64 s ≡ true → (bs : Bytes) × (x.put_uint64 s ≡ some bs)
  pub uint64_nonempty : (s : String) (bs : Bytes) → x.put_uint64 s ≡ some bs → 0 < length bs
  pub uint64_zero : x.to_uint64 "0" ≡ "0"
  pub int64 :
      (s : String) (bs rest : Bytes)
      → x.put_int64 s ≡ some bs
      → x.take_int64 (bs ++ rest) ≡ some (x.to_int64 s, rest)
  pub int64_zero : x.to_int64 "0" ≡ "0"
  pub string : (s : String) (rest : Bytes) → x.take_string (x.put_string s ++ rest) ≡ some (s, rest)
  pub bool : (b : Bool) (rest : Bytes) → x.take_bool (x.put_bool b ++ rest) ≡ some (b, rest)

-- One write after the other.
infix 40 ◌then_write◌
abbrev pub ◌then_write◌ : Option Bytes → Option Bytes → Option Bytes
none then_write b = none
some xs then_write none = none
some xs then_write some ys = some (xs ++ ys)

-- `if (set) { ... }` around a write
abbrev pub write_if : Bool → Option Bytes → Option Bytes
write_if true b = b
write_if false b = some []

-- `for (const v of list) { ... }` around a write
unfoldable pub write_all : {V : Type 0} → (V → Option Bytes) → List V → Option Bytes
write_all write [] = some []
write_all write (v ∷ vs) = write v then_write write_all write vs

-- A reader: `reader.pos`, and the bytes that are left.
pub record Reader : Type 0 where
  pub at : ℕ
  pub rest : Bytes

abbrev pub moved_to : Reader → Bytes → Reader
moved_to r rest = record { at = r.at + (length r.rest - length rest); rest = rest }

-- How the `switch` of a `decode` ends: at a `continue`, past all cases, or with an exception.
pub data Switch (M : Type 0) : Type 0 where
  continued : M → Reader → Switch M
  unmatched : Switch M
  thrown : Switch M

-- A case that reads one value and continues with it.
abbrev pub take_into : {V M : Type 0} → Taker V → (V → M) → Reader → Switch M
take_into taker set r = elim (taker r.rest) [
  | none ↦ thrown
  | some (v, rest) ↦ continued (set v) (moved_to r rest)
]

abbrev pub only_message : {M : Type 0} → Option (M × Reader) → Option M
only_message none = none
only_message (some (m, r)) = some m

module _ {F : Type 0} (x : Wire F) where
  -- `writer.uint32(tag)` and the value
  abbrev pub field : ℕ → Option Bytes → Option Bytes
  field tag value = x.put_uint32 (pos tag) then_write value

  -- `if (value !== default) { writer.uint32(tag).string(value) }`, and so for the other types
  abbrev pub string_field : ℕ → String → Option Bytes
  string_field tag s = write_if (not (is_empty_str s)) (field tag (some (x.put_string s)))

  abbrev pub bool_field : ℕ → Bool → Option Bytes
  bool_field tag b = write_if b (field tag (some (x.put_bool b)))

  abbrev pub int64_field : ℕ → String → Option Bytes
  int64_field tag s = write_if (not (str_eq s "0")) (field tag (x.put_int64 s))

  abbrev pub uint32_field : ℕ → ℤ → Option Bytes
  uint32_field tag z = write_if (not (is_zero z)) (field tag (x.put_uint32 z))

  abbrev pub int32_field : ℕ → ℤ → Option Bytes
  int32_field tag z = write_if (not (is_zero z)) (field tag (x.put_int32 z))

  -- `while (reader.pos < end) { const tag = reader.uint32(); switch (tag >>> 3) ... }`
  unfoldable pub read_fields :
      {M : Type 0} → (ℕ → M → Reader → Switch M) → ℕ → ℕ → M → Reader → Option (M × Reader)
  read_fields switch zero end m r = none
  read_fields switch (suc fuel) end m r =
      if ltb r.at end
      then (elim (x.take_uint32 r.rest) [
        | none ↦ none
        | some (tag, rest) ↦ elim (switch tag m (moved_to r rest)) [
          | continued m' r' ↦ read_fields switch fuel end m' r'
          | thrown ↦ none
          | unmatched ↦
              if tag % 8 == 4 || tag == 0
              then some (m, moved_to r rest)
              else (elim (x.skip (tag % 8) rest) [
                | none ↦ none
                | some after ↦ read_fields switch fuel end m (moved_to r after)
              ])
        ]
      ])
      else some (m, r)

  -- `fork()`, what is written, and `join()`: the number of the bytes and the bytes.
  abbrev pub join : Option Bytes → Option Bytes
  join none = none
  join (some bs) = x.put_uint32 (pos (length bs)) then_write some bs

  -- `M.encode(value, writer.uint32(tag).fork()).join()`
  abbrev pub message_field : ℕ → Option Bytes → Option Bytes
  message_field tag written = field tag (join written)

  -- `if (value !== undefined) { M.encode(value, writer.uint32(tag).fork()).join() }`
  unfoldable pub optional_field : {V : Type 0} → ℕ → (V → Option Bytes) → Option V → Option Bytes
  optional_field tag encode none = some []
  optional_field tag encode (some v) = message_field tag (encode v)

  -- `while (reader.pos < end2) { list.push(...) }`
  unfoldable pub read_packed :
      {V : Type 0} → Taker V → ℕ → ℕ → List V → Reader → Option (List V × Reader)
  read_packed taker zero end vs r = none
  read_packed taker (suc fuel) end vs r =
      if ltb r.at end
      then (elim (taker r.rest) [
        | none ↦ none
        | some (v, rest) ↦ read_packed taker fuel end (vs ++ (v ∷ [])) (moved_to r rest)
      ])
      else some (vs, r)

  -- A case that reads the number of the bytes, `reader.uint32()`, and goes on up to their end.
  abbrev pub take_sized :
      {V M : Type 0} → (ℕ → Reader → Option (V × Reader)) → (V → M) → Reader → Switch M
  take_sized body set r = elim (x.take_uint32 r.rest) [
    | none ↦ thrown
    | some (n, rest) ↦ elim (body (r.at + (length r.rest - length rest) + n) (moved_to r rest)) [
      | none ↦ thrown
      | some (v, after) ↦ continued (set v) after
    ]
  ]

  -- `reader.uint32() + reader.pos` and the loop that pushes onto a list
  abbrev pub take_packed : {V M : Type 0} → Taker V → List V → (List V → M) → Reader → Switch M
  take_packed taker vs set =
      take_sized (λ end r. read_packed taker (suc (length r.rest)) end vs r) set

  -- `decode(reader, reader.uint32())` of a message inside of another one
  abbrev pub take_message :
      {V M : Type 0} → (ℕ → V → Reader → Switch V) → V → (V → M) → Reader → Switch M
  take_message switch base set =
      take_sized (λ end r. read_fields switch (suc (length r.rest)) end base r) set

  -- `decode(input)` of the whole input: every turn reads a byte at least, so one turn more than the
  -- bytes are enough.
  abbrev pub decode_all : {M : Type 0} → (ℕ → M → Reader → Switch M) → M → Bytes → Option M
  decode_all switch base bs =
      only_message
        (read_fields switch (suc (length bs)) (length bs) base (record { at = 0; rest = bs }))
