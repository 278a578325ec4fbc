-- ===== src/Communication/Object/Steps.antt =====
-- include/ghex/communication_object_2.hpp: exchanges and waits, one after another.
use mathlib.Core.Option.{some-injective, none-ne-some}
use ghex.Base.{
  ℕ, ◌≡◌, refl, Bool, true, false, List, [], map, none, some, Bool-cases, inl, inr, sym, ◌∙◌, subst,
  arith,
}
use ghex.Base.OrderedMap.{}
use ghex.Communication.Memory.{Memory}
use ghex.Communication.Packing.{Packing}
use ghex.Communication.Pattern.{BufferInfo}
use ghex.Communication.Buffers.{}
use ghex.Communication.Buffers.Layout.{allocate-AllValid}
use ghex.Communication.Buffers.Layout
use ghex.Communication.Object.Session.{
  LaidOut, IsIdle, IsValid, allocate_fields-LaidOut, allocate_fields-valid, each_buffer-AllBuffers,
  pack_buffer-IsValid, clear-IsIdle,
}
use ghex.Communication.Object.{
  Object, Request, make_communication_object, allocate_fields, exchange_impl, tag_map, post_recvs,
  unpack, pack_buffer, pack, exchange, clear_buffer, clear, wait,
}

module _ {Field Container : Type 0} (packing : Packing Field Container) where
  -- What `exchange` leaves where it does not throw.
  abbrev pub started :
      (ℕ → ℕ) → List (BufferInfo Field Container) → Memory → Object packing → Object packing
  started max_tag_of bis values co = pack packing values (
      post_recvs packing (
        allocate_fields packing (tag_map max_tag_of (map (λ bi. bi.pattern.container) bis) [] 0).0
          bis (record co { valid = true })))

  pub exchange-started :
      (max_tag_of : ℕ → ℕ) (bis : List (BufferInfo Field Container)) (values : Memory)
      (co : Object packing)
      → co.valid ≡ false
      → exchange packing max_tag_of bis values co ≡ some (started max_tag_of bis values co)
  unfolding exchange exchange_impl
  exchange-started max_tag_of bis values co e = rw (impl, exchange) refl
    where
      impl :
          exchange_impl packing max_tag_of bis co
          ≡ some (
              allocate_fields packing
                (tag_map max_tag_of (map (λ bi. bi.pattern.container) bis) [] 0).0
                bis
                (record co { valid = true }))
      impl = simp e refl

  pub exchange-busy :
      (max_tag_of : ℕ → ℕ) (bis : List (BufferInfo Field Container)) (values : Memory)
      (co : Object packing)
      → co.valid ≡ true
      → exchange packing max_tag_of bis values co ≡ none
  unfolding exchange exchange_impl
  exchange-busy max_tag_of bis values co e = rw (impl, exchange) refl
    where
      impl : exchange_impl packing max_tag_of bis co ≡ none
      impl = simp e refl

  pub started-valid :
      (max_tag_of : ℕ → ℕ) (bis : List (BufferInfo Field Container)) (values : Memory)
      (co : Object packing)
      → (started max_tag_of bis values co).valid ≡ true
  unfolding pack post_recvs
  started-valid max_tag_of bis values co =
      allocate_fields-valid packing _ bis (record co { valid = true })

  started-LaidOut :
      (max_tag_of : ℕ → ℕ) (bis : List (BufferInfo Field Container)) (values : Memory)
      (co : Object packing)
      → LaidOut packing co
      → LaidOut packing (started max_tag_of bis values co)
  unfolding pack post_recvs
  started-LaidOut max_tag_of bis values co v =
      let (s, r) = allocate_fields-LaidOut packing _ bis (record co { valid = true }) v in
      (
        each_buffer-AllBuffers packing (Layout.IsValid packing) (Layout.IsValid packing)
            (pack_buffer packing values) _ (pack_buffer-IsValid packing values) s,
        r,
      )

  pub wait-busy :
      (arrived : List (Request × Memory)) (co : Object packing) (values : Memory)
      → co.valid ≡ true
      → wait packing arrived co values
        ≡ (clear packing co, unpack packing co.recv_memory arrived values)
  unfolding wait
  wait-busy arrived co values e = simp e refl

  wait-idle :
      (arrived : List (Request × Memory)) (co : Object packing) (values : Memory)
      → co.valid ≡ false
      → wait packing arrived co values ≡ (co, values)
  unfolding wait
  wait-idle arrived co values e = simp e refl

  true≢false : {b : Bool} → b ≡ true → b ≡ false → ⊥
  true≢false e f = ground (arith, e, f)

  pub IsValid-IsIdle :
      (co : Object packing) → IsValid packing co → co.valid ≡ false → IsIdle packing co
  IsValid-IsIdle co (v, inl busy) e = absurd (true≢false busy e)
  IsValid-IsIdle co (v, inr idle) e = idle

  -- A call on the object, and calls one after another.
  pub data Step : Object packing → Object packing → Type 0 where
    exchanged :
        (max_tag_of : ℕ → ℕ) (bis : List (BufferInfo Field Container)) (values : Memory)
        {co co' : Object packing}
        → exchange packing max_tag_of bis values co ≡ some co'
        → Step co co'
    waited :
        (arrived : List (Request × Memory)) (values : Memory) {co : Object packing}
        → Step co (wait packing arrived co values).0

  pub data Steps : Object packing → Object packing → Type 0 where
    stay : {co : Object packing} → Steps co co
    step : {a b c : Object packing} → Steps a b → Step b c → Steps a c

  clear-IsValid : (co : Object packing) → LaidOut packing co → IsValid packing (clear packing co)
  unfolding clear clear_buffer
  clear-IsValid co (s, r) = (
    (
      each_buffer-AllBuffers packing (Layout.IsValid packing) (Layout.IsValid packing)
          (clear_buffer packing) co.send_memory (λ b v. refl) s,
      each_buffer-AllBuffers packing (Layout.IsValid packing) (Layout.IsValid packing)
          (clear_buffer packing) co.recv_memory (λ b v. refl) r,
    ),
    inr (clear-IsIdle packing co (s, r)),
  )

  Step-IsValid : {a b : Object packing} → Step a b → IsValid packing a → IsValid packing b
  Step-IsValid (exchanged m bis vs {co = co} {co' = co'} h) (v, idle) = elim (Bool-cases co.valid) [
    | inl e ↦ absurd (none-ne-some co' (sym (exchange-busy m bis vs co e) ∙ h))
    | inr e ↦
        subst (IsValid packing)
          (some-injective (started m bis vs co) co' (sym (exchange-started m bis vs co e) ∙ h))
          (started-LaidOut m bis vs co v, inl (started-valid m bis vs co))
  ]
  Step-IsValid (waited arrived vs {co = co}) (v, idle) = elim (Bool-cases co.valid) [
    | inl e ↦
        subst (λ x. IsValid packing x.0) (sym (wait-busy arrived co vs e)) (clear-IsValid co v)
    | inr e ↦ subst (λ x. IsValid packing x.0) (sym (wait-idle arrived co vs e)) (v, idle)
  ]

  Steps-keep : {a b : Object packing} → Steps a b → IsValid packing a → IsValid packing b
  Steps-keep stay v = v
  Steps-keep (step s t) v = Step-IsValid t (Steps-keep s v)

  -- Whatever sequence of exchanges and waits is called on a new communication object, with whatever
  -- fields, patterns and arrivals: every buffer's parts are laid out one after another up to its
  -- size; and while no exchange is under way, all buffers are empty and no request is open.
  pub Steps-IsValid :
      (co : Object packing) → Steps make_communication_object co → IsValid packing co
  unfolding make_communication_object
  Steps-IsValid co s = Steps-keep s ((tt, tt), inr (tt, tt, refl, refl))

  -- On an object with no exchange under way, `exchange` succeeds; while that exchange is not waited
  -- for, every further one throws; a `wait` ends it, whatever has arrived, and a second `wait`
  -- changes neither the object nor the fields' memory.
  pub exchange-wait :
      (max_tag_of : ℕ → ℕ) (bis : List (BufferInfo Field Container)) (values : Memory)
      (arrived : List (Request × Memory)) (co : Object packing)
      → co.valid ≡ false
      → (co' : Object packing) × (exchange packing max_tag_of bis values co ≡ some co')
        × ((other : List (BufferInfo Field Container))
            → exchange packing max_tag_of other values co' ≡ none)
        × ((wait packing arrived co' values).0.valid ≡ false)
        × ((again : List (Request × Memory)) (later : Memory)
            → wait packing again (wait packing arrived co' values).0 later
              ≡ ((wait packing arrived co' values).0, later))
  unfolding clear
  exchange-wait max_tag_of bis values arrived co e =
      let busy = started-valid max_tag_of bis values co in
      let done = ended (started max_tag_of bis values co) busy in
      (
        started max_tag_of bis values co,
        exchange-started max_tag_of bis values co e,
        λ other. exchange-busy max_tag_of other values _ busy,
        done,
        λ again later. wait-idle again _ later done,
      )
    where
      ended :
          (c : Object packing) → c.valid ≡ true → (wait packing arrived c values).0.valid ≡ false
      ended c h = subst (λ x. x.0.valid ≡ false) (sym (wait-busy arrived c values h)) refl
