-- ===== src/Communication/Pattern.antt =====
-- include/ghex/pattern.hpp and include/ghex/buffer_info.hpp: the container of a rank's patterns, and a
-- field bound to its pattern. A container is referred to by its address.
use ghex.Base.{
  ℕ, ◌≡◌, ◌≢◌, refl, ap, ◌++◌, All, Bool-cases, inl, inr, arith, List, [], ◌∷◌, map, Option, none,
  some, if◌then◌else◌, ◌==◌,
}
use ghex.Communication.Packing.{Packing}
use ghex.Communication.Buffers.{ExtendedDomainId}

pub record Pattern (Container : Type 0) : Type 0 where
  pub id : ExtendedDomainId
  pub send_halos : List (ExtendedDomainId × Container)
  pub recv_halos : List (ExtendedDomainId × Container)
  pub container : ℕ

pub record PatternContainer (Container : Type 0) : Type 0 where
  pub patterns : List (Pattern Container)
  pub max_tag : ℕ

pub record BufferInfo (Field Container : Type 0) : Type 0 where
  pub pattern : Pattern Container
  pub field : Field
  pub device_id : ℕ

module _ {Container : Type 0} where
  unfoldable owned : ℕ → Pattern Container → Pattern Container
  owned at p = record p { container = at }

  -- The constructors: `at` is the address of the new container.
  unfoldable pub make_container : ℕ → List (Pattern Container) → ℕ → PatternContainer Container
  unfolding owned
  make_container at d mt = record { patterns = map (owned at) d; max_tag = mt }

  unfoldable pub copy_container : ℕ → PatternContainer Container → PatternContainer Container
  unfolding owned
  copy_container at other = record {
    patterns = map (owned at) other.patterns;
    max_tag = other.max_tag;
  }

  -- `operator()`: the linear search for the pattern of the field's domain, which throws where there
  -- is none.
  unfoldable pub bind :
      {Field : Type 0}
      → Packing Field Container
      → List (Pattern Container)
      → Field
      → Option (BufferInfo Field Container)
  bind packing [] f = none
  bind packing (p ∷ ps) f =
      let rest = bind packing ps f in
      if p.id.id == packing.domain_id f
      then some (record { pattern = p; field = f; device_id = packing.device_id f })
      else rest

module _ {Field Container : Type 0} (packing : Packing Field Container) where
  abbrev Other : Field → Pattern Container → Type 0
  Other f p = p.id.id ≢ packing.domain_id f

  -- What `bind` gives: the pattern of the field's domain before which no pattern of the container is
  -- of this domain; or nothing, where none of them is.
  abbrev pub Bound : List (Pattern Container) → Field → Option (BufferInfo Field Container) → Type 0
  Bound ps f none = All (Other f) ps
  Bound ps f (some bi) =
      (bi.field ≡ f)
      × (bi.pattern.id.id ≡ packing.domain_id f)
      × ((before : List (Pattern Container)) × (after : List (Pattern Container)) × (ps
            ≡ before ++ (bi.pattern ∷ after))
          × All (Other f) before)

  Bound-cons :
      (p : Pattern Container) (ps : List (Pattern Container)) (f : Field)
      (o : Option (BufferInfo Field Container))
      → Other f p
      → Bound ps f o
      → Bound (p ∷ ps) f o
  Bound-cons p ps f none ne h = (ne, h)
  Bound-cons p ps f (some bi) ne (a, b, (before, after, e, others)) =
      (a, b, (p ∷ before, after, ap (λ l. p ∷ l) e, (ne, others)))

  -- Binding a field to its pattern finds the first pattern of the field's domain, and fails where no
  -- pattern of the container is of that domain.
  pub bind-Bound : (ps : List (Pattern Container)) (f : Field) → Bound ps f (bind packing ps f)
  unfolding bind
  bind-Bound [] f = tt
  bind-Bound (p ∷ ps) f = elim (Bool-cases (p.id.id == packing.domain_id f)) [
    | inl e ↦ rw e (refl, ground (arith, e), ([], ps, refl, tt))
    | inr e ↦
        rw e (Bound-cons p ps f (bind packing ps f) (λ h. ground (arith, e, h)) (bind-Bound ps f))
  ]
