-- ===== src/Net/Ipv4/Split.antt =====
-- The `std::getline` loop of `is_valid_ipv4` against a description without fuel or stream.
use realm_cpp.Prelude.{
  ℕ, zero, suc, ◌≤◌, ◌≡◌, refl, sym, ap, ◌∙◌, ◌⊎◌, inl, inr, List, [], ◌∷◌, ◌++◌, false, Bool-cases,
  length, arith, ◌==◌, ==_iff, if◌then◌else◌, All,
}
use realm_cpp.Prelude.Bytes.{Bytes}
use realm_cpp.Net.Ipv4.{take_segment, getline, read_segments}

abbrev pub onto_first : ℕ → List Bytes → List Bytes
onto_first c [] = (c ∷ []) ∷ []
onto_first c (s ∷ ss) = (c ∷ s) ∷ ss

-- The segments of a text: a delimiter ends one, and the last is left out if it is empty.
pub segments_of : ℕ → Bytes → List Bytes
segments_of delim [] = []
segments_of delim (c ∷ cs) =
    let rest = segments_of delim cs in if c == delim then [] ∷ rest else onto_first c rest

take_segment-le : (delim : ℕ) (s : Bytes) → length (take_segment delim s).1 ≤ length s
unfolding take_segment
take_segment-le delim [] = omega arith
take_segment-le delim (c ∷ cs) = ground (arith, take_segment-le delim cs)

take_segment-lt : (delim c : ℕ) (cs : Bytes) → length (take_segment delim (c ∷ cs)).1 ≤ length cs
unfolding take_segment
take_segment-lt delim c cs = ground (arith, take_segment-le delim cs)

segments_of-take_segment :
    (delim c : ℕ) (cs : Bytes)
    → segments_of delim (c ∷ cs)
      ≡ (take_segment delim (c ∷ cs)).0 ∷ segments_of delim (take_segment delim (c ∷ cs)).1
unfolding segments_of take_segment
segments_of-take_segment delim c [] = ground arith
segments_of-take_segment delim c (d ∷ ds) = ground (arith, segments_of-take_segment delim d ds)

-- With the length of the text as fuel, or more, the loop reads exactly its segments.
pub read_segments-eq-segments_of :
    (fuel delim : ℕ) (s : Bytes)
    → length s ≤ fuel
    → read_segments fuel delim s ≡ segments_of delim s
unfolding read_segments getline segments_of
read_segments-eq-segments_of zero delim [] h = refl
read_segments-eq-segments_of zero delim (c ∷ cs) h = absurd (omega arith)
read_segments-eq-segments_of (suc fuel) delim [] h = refl
read_segments-eq-segments_of (suc fuel) delim (c ∷ cs) h =
    ap (◌∷◌ (take_segment delim (c ∷ cs)).0) (
      read_segments-eq-segments_of fuel delim (take_segment delim (c ∷ cs)).1
        (omega (arith, take_segment-lt delim c cs)))
    ∙ sym (segments_of-take_segment delim c cs)

-- The segments joined by the delimiter.
abbrev pub join : ℕ → List Bytes → Bytes
join delim [] = []
join delim (s ∷ []) = s
join delim (s ∷ t ∷ ss) = s ++ delim ∷ join delim (t ∷ ss)

join-onto_first : (delim c : ℕ) (ss : List Bytes) → join delim (onto_first c ss) ≡ c ∷ join delim ss
join-onto_first delim c [] = refl
join-onto_first delim c (s ∷ []) = refl
join-onto_first delim c (s ∷ t ∷ ss) = refl

join-blank :
    (delim d : ℕ) (ds : Bytes)
    → join delim ([] ∷ segments_of delim (d ∷ ds)) ≡ delim ∷ join delim (segments_of delim (d ∷ ds))
join-blank delim d ds = rw (segments_of-take_segment delim d ds)

-- A text is its segments, joined, or those and one delimiter at the end.
abbrev pub IsJoin : ℕ → List Bytes → Bytes → Type 0
IsJoin delim ss s = (join delim ss ≡ s) ⊎ (join delim ss ++ delim ∷ [] ≡ s)

IsJoin-segments_of_eq :
    (delim c : ℕ) (cs : Bytes)
    → c ≡ delim
    → IsJoin delim (segments_of delim cs) cs
    → IsJoin delim ([] ∷ segments_of delim cs) (c ∷ cs)
unfolding segments_of
IsJoin-segments_of_eq delim c [] e h = ground arith
IsJoin-segments_of_eq delim c (d ∷ ds) e h =
    unfold take_segment in rw (join-blank delim d ds) (ground (arith, h))

-- The segments are all of the text: joined, they give it back, up to one delimiter at its end.
pub IsJoin-segments_of : (delim : ℕ) (s : Bytes) → IsJoin delim (segments_of delim s) s
unfolding segments_of
IsJoin-segments_of delim [] = inl refl
IsJoin-segments_of delim (c ∷ cs) = elim (Bool-cases (c == delim)) [
  | inl e ↦
      rw e (IsJoin-segments_of_eq delim c cs ((==_iff c delim).0 e) (IsJoin-segments_of delim cs))
  | inr e ↦
      rw (e, join-onto_first delim c (segments_of delim cs))
        (ground (arith, IsJoin-segments_of delim cs))
]

-- A segment holds no delimiter.
abbrev pub IsPlain : ℕ → Bytes → Type 0
IsPlain delim = All (λ c. (c == delim) ≡ false)

pub segments_of-append :
    (delim : ℕ) (s rest : Bytes)
    → IsPlain delim s
    → segments_of delim (s ++ delim ∷ rest) ≡ s ∷ segments_of delim rest
unfolding segments_of
segments_of-append delim [] rest p = ground arith
segments_of-append delim (c ∷ s) rest p = rw (segments_of-append delim s rest p.1, p.0)

pub segments_of_plain :
    (delim c : ℕ) (s : Bytes) → IsPlain delim (c ∷ s) → segments_of delim (c ∷ s) ≡ (c ∷ s) ∷ []
unfolding segments_of
segments_of_plain delim c [] p = rw p.0
segments_of_plain delim c (d ∷ s) p = rw (segments_of_plain delim d s p.1, p.0)

-- A last segment that is not empty may be followed by one delimiter.
pub segments_of_last :
    (delim c : ℕ) (s : Bytes)
    → IsPlain delim (c ∷ s)
    → (segments_of delim (c ∷ s) ≡ (c ∷ s) ∷ [])
      × (segments_of delim ((c ∷ s) ++ delim ∷ []) ≡ (c ∷ s) ∷ [])
unfolding segments_of
segments_of_last delim c s p =
    (segments_of_plain delim c s p, segments_of-append delim (c ∷ s) [] p)
