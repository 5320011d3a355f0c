-- ===== src/Client/Calls/Validation.antt =====
-- Which points `upsert` of clientlibs/js/src/client.ts accepts, and what it makes of them.
use vectron.Prelude.{
  zero, suc, ◌≡◌, ◌≢◌, ◌⊎◌, inl, inr, refl, ap, Bool-cases, false, Option, none, some, List, [],
  ◌∷◌, arith, length, String, All, is_empty, is_empty_str, is_empty_str-false, eq_iff, ℤ, pos,
  negsuc, Outcome, ok, err, pending, map,
}
use vectron.Gateway.Messages.{Point as ProtoPoint, create_point}
use vectron.Client.Errors.{
  Platform, Thrown, VectronError, own, service, other, invalid_argument_error,
  new_invalid_argument_error,
}
use vectron.Client.Session.{Client, mismatches, validate_vector_dim}
use vectron.Client.Calls.{Point, proto_point, proto_points}

-- The call is refused as an invalid argument.
abbrev pub IsRefused {ℓ} : {A : Type ℓ} → Outcome Thrown A → Type 0
IsRefused (err (own e)) = e.class_of ≡ invalid_argument_error
IsRefused _ = ⊥

pub refused_err :
    {A : Type 0} (r : Outcome Thrown A) → IsRefused r → (v : VectronError) × (r ≡ err (own v))
refused_err (err (own v)) h = (v, refl)
refused_err (err (service e)) h = absurd h
refused_err (err (other s)) h = absurd h
refused_err (ok a) h = absurd h
refused_err pending h = absurd h

absurd_named : (s : String) → s ≡ "" → is_empty_str s ≡ false → ⊥
absurd_named s e h = ground (arith, eq_iff s "")

module _ {F : Type 0} where
  -- No expected dimension is set, or the vector has it.
  abbrev pub Fits : Option ℤ → List F → Type 0
  Fits none vector = Unit {0}
  Fits (some dim) vector = (dim ≡ pos 0) ⊎ (dim ≡ pos (length vector))

  -- What `upsert` asks of a point: an id, a vector, and the expected dimension.
  pub record IsValid (c : Client) (p : Point F) : Type 0 where
    pub named : p.id ≢ ""
    pub filled : p.vector ≢ []
    pub fits : Fits c.options.expected_vector_dim p.vector

  Fits-mismatches : (d : Option ℤ) (v : List F) → Fits d v → mismatches d v ≡ false
  Fits-mismatches none v h = refl
  Fits-mismatches (some (pos n)) v h = ground arith
  Fits-mismatches (some (negsuc n)) v h = ground arith

  mismatches-Fits : (d : Option ℤ) (v : List F) → mismatches d v ≡ false → Fits d v
  mismatches-Fits none v h = tt
  mismatches-Fits (some (pos zero)) v h = inl refl
  mismatches-Fits (some (pos (suc n))) v h = inr (ground arith)
  mismatches-Fits (some (negsuc n)) v h = absurd (ground arith)

  absurd_filled : (v : List F) → v ≡ [] → is_empty v ≡ false → ⊥
  absurd_filled v e h = cc (ap is_empty e)

  filled→is_empty : (v : List F) → v ≢ [] → is_empty v ≡ false
  filled→is_empty [] h = absurd (h refl)
  filled→is_empty (x ∷ xs) h = refl

  module _ (pf : Platform) (c : Client) where
    abbrev pub message_of : Point F → ProtoPoint F
    message_of p = create_point (some p.id) (some p.vector) p.payload

    pub proto_point_valid : (p : Point F) → IsValid c p → proto_point pf c p ≡ ok (message_of p)
    unfolding proto_point validate_vector_dim
    proto_point_valid p v = ground (
      arith,
      is_empty_str-false p.id v.named,
      filled→is_empty p.vector v.filled,
      Fits-mismatches c.options.expected_vector_dim p.vector v.fits,
    )

    proto_point_cases : (p : Point F) → IsValid c p ⊎ IsRefused (proto_point pf c p)
    unfolding proto_point validate_vector_dim new_invalid_argument_error
    proto_point_cases p = elim (Bool-cases (is_empty_str p.id)) [
      | inl e ↦ inr (rw e refl)
      | inr named ↦ elim (Bool-cases (is_empty p.vector)) [
        | inl e ↦ inr (rw (named, e) refl)
        | inr filled ↦ elim (Bool-cases (mismatches c.options.expected_vector_dim p.vector)) [
          | inl e ↦ inr (rw (named, filled, e) refl)
          | inr fits ↦ inl (record {
            named = λ e. absurd_named p.id e named;
            filled = λ e. absurd_filled p.vector e filled;
            fits = mismatches-Fits c.options.expected_vector_dim p.vector fits;
          })
        ]
      ]
    ]

    -- Points that are all valid are accepted, each as the message with its id, vector and
    -- payload.
    pub proto_points_valid :
        (ps : List (Point F)) → All (IsValid c) ps → proto_points pf c ps ≡ ok (map message_of ps)
    unfolding proto_points
    proto_points_valid [] v = refl
    proto_points_valid (p ∷ ps) v =
        ground (arith, proto_point_valid p v.0, proto_points_valid ps v.1)

    IsRefused-first :
        (p : Point F) (ps : List (Point F))
        → IsRefused (proto_point pf c p)
        → IsRefused (proto_points pf c (p ∷ ps))
    unfolding proto_points
    IsRefused-first p ps h = ground arith

    IsRefused-later :
        (p : Point F) (ps : List (Point F))
        → IsValid c p
        → IsRefused (proto_points pf c ps)
        → IsRefused (proto_points pf c (p ∷ ps))
    unfolding proto_points
    IsRefused-later p ps v h = ground (arith, proto_point_valid p v)

    -- Points are all valid, or they are refused as an invalid argument.
    pub proto_points_cases :
        (ps : List (Point F)) → All (IsValid c) ps ⊎ IsRefused (proto_points pf c ps)
    unfolding proto_points
    proto_points_cases [] = inl tt
    proto_points_cases (p ∷ ps) = elim (proto_point_cases p) [
      | inr bad ↦ inr (IsRefused-first p ps bad)
      | inl v ↦ elim (proto_points_cases ps) [
        | inr bad ↦ inr (IsRefused-later p ps v bad)
        | inl vs ↦ inl (v, vs)
      ]
    ]
