-- ===== src/Examples/Codec.antt =====
-- The codec of maps of the examples: each text stands after its length, and the entries are read back
-- in the opposite order.
use mathlib.Core.List.{Permᴰ}
use mathlib.Core.List.Permᴰ
use mathlib.Core.Path.{subst}
use dahlia.Common.{
  append-nil, ℕ, zero, suc, ◌≤◌, ◌<◌, Option, none, some, List, [], ◌∷◌, ◌++◌, Text, length, take,
  drop, ◌≡◌, refl, ap, arith,
}
use dahlia.Errors.{Result, ok, err, external}

-- a text that stands after its length, and what follows
abbrev first_text : Text → Option (Text × Text)
first_text [] = none
first_text (n ∷ s) = some (take n s, drop n s)

unfoldable pub entries_to_text : List (Text × Text) → Text
entries_to_text [] = []
entries_to_text ((key, value) ∷ m) =
    length key ∷ (key ++ length value ∷ (value ++ entries_to_text m))

abbrev read_value :
    (List (Text × Text) → Text → Result (List (Text × Text)))
    → List (Text × Text)
    → Text
    → Option (Text × Text)
    → Result (List (Text × Text))
read_value rest read key none = err (external 1)
read_value rest read key (some (value, s)) = rest ((key, value) ∷ read) s

unfoldable pub read_entries : ℕ → List (Text × Text) → Text → Result (List (Text × Text))
read_entries zero read s = err (external 1)
read_entries (suc fuel) read [] = ok read
read_entries (suc fuel) read (n ∷ s) =
    let rest = read_entries fuel in read_value rest read (take n s) (first_text (drop n s))

take-length : (s t : Text) → take (length s) (s ++ t) ≡ s
take-length [] t = refl
take-length (c ∷ s) t = ap (λ r. c ∷ r) (take-length s t)

drop-length : (s t : Text) → drop (length s) (s ++ t) ≡ t
drop-length [] t = refl
drop-length (c ∷ s) t = drop-length s t

length-append_le : (s t : Text) → length t ≤ length (s ++ t)
length-append_le [] t = omega arith
length-append_le (c ∷ s) t = omega (arith, length-append_le s t)

entries_count : (m : List (Text × Text)) → length m ≤ length (entries_to_text m)
unfolding entries_to_text
entries_count [] = omega arith
entries_count ((key, value) ∷ m) = omega (
  arith,
  entries_count m,
  length-append_le value (entries_to_text m),
  length-append_le key (length value ∷ (value ++ entries_to_text m)),
)

-- the entries in the opposite order, before those that have been read
abbrev reversed_onto : List (Text × Text) → List (Text × Text) → List (Text × Text)
reversed_onto [] read = read
reversed_onto (entry ∷ m) read = reversed_onto m (entry ∷ read)

read_entries-entries_to_text :
    (m read : List (Text × Text)) (fuel : ℕ)
    → length m < fuel
    → read_entries fuel read (entries_to_text m) ≡ ok (reversed_onto m read)
unfolding read_entries entries_to_text
read_entries-entries_to_text m read zero h = absurd (omega (arith, h))
read_entries-entries_to_text [] read (suc fuel) h = refl
read_entries-entries_to_text ((key, value) ∷ m) read (suc fuel) h =
    let tail : Text = length value ∷ (value ++ entries_to_text m) in
    rw
      (
        take-length key tail,
        drop-length key tail,
        take-length value (entries_to_text m),
        drop-length value (entries_to_text m),
      )
      (read_entries-entries_to_text m ((key, value) ∷ read) fuel (omega (arith, h)))

reversed_onto-Permᴰ : (m read : List (Text × Text)) → Permᴰ (m ++ read) (reversed_onto m read)
reversed_onto-Permᴰ [] read = Permᴰ.refl read
reversed_onto-Permᴰ (entry ∷ m) read =
    Permᴰ.trans (Permᴰ.symm (Permᴰ.middle entry m read)) (reversed_onto-Permᴰ m (entry ∷ read))

abbrev pub read_text : Text → Result (List (Text × Text))
read_text s = read_entries (suc (length s)) [] s

pub read_text-entries_to_text :
    (m : List (Text × Text))
    → (m' : List (Text × Text)) × (read_text (entries_to_text m) ≡ ok m') × Permᴰ m m'
read_text-entries_to_text m = (
  reversed_onto m [],
  read_entries-entries_to_text m [] (suc (length (entries_to_text m)))
      (omega (arith, entries_count m)),
  subst (λ l. Permᴰ l (reversed_onto m [])) (append-nil m) (reversed_onto-Permᴰ m []),
)
