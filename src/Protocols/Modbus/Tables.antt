-- ===== src/Protocols/Modbus/Tables.antt =====
-- Pairs of tables: two that undo each other, and two with the same keys.
use ghost_meter.Prelude.{ℕ, ◌≡◌, ◌∙◌, false, none, some, arith, ==_iff, nat_eq}
use ghost_meter.Dict.{Dict, get, put, pop, has, get-put, get-pop, has-put, has-pop, has-get}

-- Two tables that undo each other.
pub record AreInverse (f g : Dict ℕ ℕ) : Type 0 where
  pub there : (d s : ℕ) → get f d ≡ some s → get g s ≡ some d
  pub back : (d s : ℕ) → get g s ≡ some d → get f d ≡ some s

put_there :
    (f g : Dict ℕ ℕ) (d s : ℕ)
    → get g s ≡ none
    → ((i j : ℕ) → get f i ≡ some j → get g j ≡ some i)
    → (i j : ℕ) → get (put f d s) i ≡ some j
    → get (put g s d) j ≡ some i
put_there f g d s free h i j e =
    ground (arith, get-put f d i s, get-put g s j d, h i j, ==_iff i d, ==_iff j s)

pop_there :
    (f g : Dict ℕ ℕ) (d s : ℕ)
    → get g s ≡ some d
    → ((i j : ℕ) → get f i ≡ some j → get g j ≡ some i)
    → (i j : ℕ) → get (pop f d) i ≡ some j
    → get (pop g s) j ≡ some i
pop_there f g d s used h i j e =
    ground (arith, get-pop f d i, get-pop g s j, h i j, ==_iff i d, ==_iff j s)

pub put-AreInverse :
    (f g : Dict ℕ ℕ) (d s : ℕ)
    → get f d ≡ none
    → get g s ≡ none
    → AreInverse f g
    → AreInverse (put f d s) (put g s d)
put-AreInverse f g d s free_d free_s h = record {
  there = put_there f g d s free_s h.there;
  back = λ i j. put_there g f s d free_d (λ x y. h.back y x) j i;
}

pub pop-AreInverse :
    (f g : Dict ℕ ℕ) (d s : ℕ) → get f d ≡ some s → AreInverse f g → AreInverse (pop f d) (pop g s)
pop-AreInverse f g d s used h = record {
  there = pop_there f g d s (h.there d s used) h.there;
  back = λ i j. pop_there g f s d used (λ x y. h.back y x) j i;
}

-- Two tables with the same keys.
abbrev pub SameKeys : {V W : Type 0} → Dict ℕ V → Dict ℕ W → Type 0
SameKeys f g = (k : ℕ) → has f k ≡ has g k

pub put-SameKeys :
    {V W : Type 0} (f : Dict ℕ V) (g : Dict ℕ W) (d : ℕ) (v : V) (w : W)
    → SameKeys f g
    → SameKeys (put f d v) (put g d w)
put-SameKeys f g d v w h k = rw (has-put f d k v, has-put g d k w, h k)

pub pop-SameKeys :
    {V W : Type 0} (f : Dict ℕ V) (g : Dict ℕ W) (d : ℕ)
    → SameKeys f g
    → SameKeys (pop f d) (pop g d)
pop-SameKeys f g d h k = rw (has-pop f d k, has-pop g d k, h k)

-- A key that `g` lacks is put into `f` and taken out again.
pub put-pop-SameKeys :
    {V W : Type 0} (f : Dict ℕ V) (g : Dict ℕ W) (d : ℕ) (v : V)
    → has g d ≡ false
    → SameKeys f g
    → SameKeys (pop (put f d v) d) g
put-pop-SameKeys f g d v lacks h k =
    ground (arith, has-pop (put f d v) d k, has-put f d k v, h k, ==_iff k d)

pub has_of_get : {V : Type 0} (f : Dict ℕ V) (d : ℕ) → get f d ≡ none → has f d ≡ false
has_of_get f d h = has-get f d ∙ rw h

pub get_of_has : {V : Type 0} (f : Dict ℕ V) (d : ℕ) → has f d ≡ false → get f d ≡ none
get_of_has f d h = ground (arith, has-get f d)
