-- ===== src/Examples/Texts.antt =====
-- Texts of the trees of a table, by their positions, for a transport over trees.
use Prim.Native.String.{String}
use text.Mathlib.Text.{◌==◌}
use text.Mathlib.TextEquality.{eq_iff}
use mathlib.Core.Option
use native.Mathlib.Decide.{ℕ_discrete}
use ldcp_sdk.Prelude.{
  ℕ, zero, suc, ◌≤◌, ◌≡◌, refl, ap, sym, Bool, true, false, List, [], ◌∷◌, ◌++◌, Option, some,
  arith, length, Bool-cases, inl, inr,
}
use ldcp_sdk.Prelude.Int.{ℤ}
use ldcp_sdk.Framing.{JsonText}
use ldcp_sdk.Network.Exchange.{Fits}
use ldcp_sdk.Json.Data.{item}
use ldcp_sdk.Json.Tree.{Tree}
use ldcp_sdk.Examples.Frames.{tally, tally-byte, parse, parse-le, parse-tally}

String-discrete : Discrete String
String-discrete a b = elim (Bool-cases (a == b)) [
  | inl same ↦ yes ((eq_iff a b).0 same)
  | inr other ↦ no (λ e. let same = (eq_iff a b).1 e in cc)
]

ℤ-discrete : Discrete ℤ
ℤ-discrete = hlevel ℕ_discrete

pub Tree-discrete : Discrete Tree
Tree-discrete = hlevel (ℕ_discrete, ℤ-discrete, String-discrete)

abbrev pub stands_if : {P : Type 0} → Dec P → Bool → Bool
stands_if (yes e) behind = true
stands_if (no d) behind = behind

abbrev pub position_if : {P : Type 0} → Dec P → ℕ → ℕ
position_if (yes e) behind = 0
position_if (no d) behind = suc behind

abbrev pub stands : Tree → List Tree → Bool
stands v [] = false
stands v (w ∷ ws) = stands_if (Tree-discrete v w) (stands v ws)

abbrev pub position : Tree → List Tree → ℕ
position v [] = 0
position v (w ∷ ws) = position_if (Tree-discrete v w) (position v ws)

item-position_if :
    (v w : Tree) (ws : List Tree) (c : Dec (v ≡ w)) (b : Bool) (n : ℕ)
    → (b ≡ true → item ws n ≡ some v)
    → stands_if c b ≡ true
    → item (w ∷ ws) (position_if c n) ≡ some v
unfolding item
item-position_if v w ws (yes e) b n there h = ap some (sym e)
item-position_if v w ws (no d) b n there h = there h

item-position : (v : Tree) (ws : List Tree) → stands v ws ≡ true → item ws (position v ws) ≡ some v
item-position v [] h = cc
item-position v (w ∷ ws) h =
    item-position_if v w ws (Tree-discrete v w) (stands v ws) (position v ws)
      (λ there. item-position v ws there) h

abbrev pub parse_with : List Tree → List ℕ → Option Tree × List ℕ
parse_with table cs = let (o, rest) = parse cs in (Option.bind o (item table), rest)

pub parse_with-tally :
    (table : List Tree) (v : Tree) (rest : List ℕ)
    → stands v table ≡ true
    → parse_with table (b'{' ∷ (tally (position v table) ++ rest)) ≡ (some v, rest)
unfolding mathlib.Core.Option.bind
parse_with-tally table v rest o =
    rw (parse-tally (position v table) rest, item-position v table o) refl

-- The text of a tree is its position in the table.
abbrev pub texts : List Tree → JsonText Tree
texts table = record {
  is_object = λ v. stands v table;
  write = λ v. b'{' ∷ tally (position v table);
  parse = parse_with table;
  write-byte = λ v. (omega arith, tally-byte (position v table));
  write-brace = λ v o. (tally (position v table), refl);
  parse-le = λ cs. parse-le cs;
  parse-write = λ v rest o. parse_with-tally table v rest o;
}

stands_if-same : (v : Tree) (c : Dec (v ≡ v)) (b : Bool) → stands_if c b ≡ true
stands_if-same v (yes e) b = refl
stands_if-same v (no d) b = absurd (d refl)

stands_if-behind : {P : Type 0} (c : Dec P) (b : Bool) → b ≡ true → stands_if c b ≡ true
stands_if-behind (yes e) b h = refl
stands_if-behind (no d) b h = h

pub stands-first : (v : Tree) (ws : List Tree) → stands v (v ∷ ws) ≡ true
stands-first v ws = stands_if-same v (Tree-discrete v v) (stands v ws)

pub stands-behind : (v w : Tree) (ws : List Tree) → stands v ws ≡ true → stands v (w ∷ ws) ≡ true
stands-behind v w ws h = stands_if-behind (Tree-discrete v w) (stands v ws) h

position_if-le : {P : Type 0} (c : Dec P) (n m : ℕ) → n ≤ m → position_if c n ≤ suc m
position_if-le (yes e) n m h = omega arith
position_if-le (no d) n m h = omega (arith, h)

position-le : (v : Tree) (ws : List Tree) → position v ws ≤ length ws
position-le v [] = omega arith
position-le v (w ∷ ws) =
    position_if-le (Tree-discrete v w) (position v ws) (length ws) (position-le v ws)

length-tally : (n : ℕ) → length (tally n) ≡ suc n
unfolding tally
length-tally zero = omega arith
length-tally (suc n) = ap suc (length-tally n)

pub texts-Fits :
    (table : List Tree) (v : Tree)
    → stands v table ≡ true
    → length table ≤ 65533
    → Fits (texts table) v
texts-Fits table v h short =
    (h, omega (arith, position-le v table, length-tally (position v table), short))
