-- ===== src/Memory/Refs.antt =====
-- The reference allocator: nextRefLocked and kindPrefix of memory/store.go.
pub mod Fresh
use Prim.Native.Char.{Char}
use Prim.Native.String
use touch_connect.Prelude.{
  ℕ, zero, suc, ◌+◌, ◌-◌, ◌/◌, ◌%◌, ◌≡◌, refl, String, true, false, ◌&&◌, nat_eq, ◌==◌,
  if◌then◌else◌, none, some,
}
use touch_connect.GoMap.{get, put}
use touch_connect.Memory.Store.{Store, new_store}

unfoldable pub kind_prefix : String → String
kind_prefix kind =
    if kind == "message"
    then "msg"
    else if kind == "delivery"
    then "dlv"
    else if kind == "attempt"
    then "att"
    else if kind == "checkpoint"
    then "ckp"
    else if kind == "readback"
    then "rdb"
    else if kind == "dead-letter"
    then "dlq"
    else if kind == "side-effect"
    then "sfx"
    else if kind == "quality-decision"
    then "qdc"
    else if kind == "accepted"
    then "acc"
    else "ref"

unfoldable pub digit : ℕ → Char
digit zero = "0"
digit (suc zero) = "1"
digit (suc (suc zero)) = "2"
digit (suc (suc (suc zero))) = "3"
digit (suc (suc (suc (suc zero)))) = "4"
digit (suc (suc (suc (suc (suc zero))))) = "5"
digit (suc (suc (suc (suc (suc (suc zero)))))) = "6"
digit (suc (suc (suc (suc (suc (suc (suc zero))))))) = "7"
digit (suc (suc (suc (suc (suc (suc (suc (suc zero)))))))) = "8"
digit n = "9"

-- The digits of `n` before `rest`, at least `width` of them. Each round takes a digit off, so
-- `width + n` rounds are enough.
unfoldable pub write_digits : ℕ → ℕ → ℕ → String → String
unfolding digit
write_digits zero width n rest = rest
write_digits (suc fuel) width n rest = elim (nat_eq n 0 && nat_eq width 0) [
  | true ↦ rest
  | false ↦ write_digits fuel (width - 1) (n / 10) (String.◌∷◌ (digit (n % 10)) rest)
]

-- fmt's %06d.
unfoldable pub decimal6 : ℕ → String
unfolding write_digits
decimal6 n = write_digits (6 + n) 6 n ""

-- fmt.Sprintf("tc://%s/%s_%06d", kind, kindPrefix(kind), n)
unfoldable pub ref_text : String → ℕ → String
unfolding kind_prefix decimal6
ref_text kind n = String.◌++◌ "tc://" (
    String.◌++◌ kind
      (String.◌++◌ "/" (String.◌++◌ (kind_prefix kind) (String.◌++◌ "_" (decimal6 n)))))

-- A missing sequence reads as 0.
unfoldable pub sequence : Store → String → ℕ
sequence s kind = elim (get s.sequences kind) [ none ↦ 0 | some n ↦ n ]

unfoldable pub next_ref : String → Store → String × Store
unfolding sequence
next_ref kind s =
    let n = sequence s kind + 1 in
    (ref_text kind n, record s { sequences = put s.sequences kind n })

first_attempt : (next_ref "attempt" new_store).0 ≡ "tc://attempt/att_000001"
unfolding next_ref ref_text get
first_attempt = refl

wide_ref : ref_text "delivery" 1234567 ≡ "tc://delivery/dlv_1234567"
unfolding ref_text
wide_ref = refl
