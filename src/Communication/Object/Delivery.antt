-- ===== src/Communication/Object/Delivery.antt =====
-- include/ghex/communication_object_2.hpp and include/ghex/packer.hpp: a message from the fields of
-- one object to the fields of another.
use mathlib.Core.Option
use mathlib.Core.Option.{some-injective, none-ne-some}
use ghex.Base.{
  ℕ, ◌<◌, ◌≡◌, refl, sym, ap, ◌∙◌, subst, true, false, List, [], ◌∷◌, Option, none, some, map, inl,
  inr, Bool-cases, ltb, arith,
}
use ghex.Base.OrderedMap.{lookup, AllValues, lookup-AllValues, lookup-map}
use ghex.Communication.Memory.{Memory}
use ghex.Communication.Packing.{Packing}
use ghex.Communication.Pattern.{BufferInfo}
use ghex.Communication.Buffers.{Buffer, BufferMap, DomainIdPair, less, pack_infos, unpack_infos}
use ghex.Communication.Buffers.Content.{Part, add_parts}
use ghex.Communication.Buffers.Layout
use ghex.Communication.Buffers.Peers.{Correspond, Peers, add_parts-Peers}
use ghex.Communication.Buffers.Transfer.{Match, transfer_infos, unpack-pack_transfer}
use ghex.Communication.Object.{
  Object, DeviceMap, Request, in_device, buffer_at, allocate_fields, exchange, each_buffer,
  pack_buffer, pack, post_recvs, tag_map, unpack, wait,
}
use ghex.Communication.Object.Session.{
  AllBuffers, Empty, LaidOut, IsIdle, IsValid, allocate_fields-LaidOut,
}
use ghex.Communication.Object.Steps.{
  started, exchange-started, exchange-busy, wait-busy, started-valid, IsValid-IsIdle,
}
use ghex.Communication.Object.Exchange.{exchange_parts, buffer_at-allocate_fields}

-- The tag offsets that an exchange computes.
abbrev pub tags_of :
    {Field Container : Type 0} → (ℕ → ℕ) → List (BufferInfo Field Container) → List (ℕ × ℕ)
tags_of max_tag_of bis = (tag_map max_tag_of (map (λ bi. bi.pattern.container) bis) [] 0).0

module _ {Field Container : Type 0} (packing : Packing Field Container) where
  in_device-some :
      (P : Buffer Field Container → Type 0) (p : DomainIdPair)
      (o : Option (BufferMap Field Container)) (b : Buffer Field Container)
      → ((m : BufferMap Field Container) → o ≡ some m → AllValues less P m)
      → in_device packing p o ≡ some b
      → P b
  in_device-some P p none b h e = cc
  in_device-some P p (some m) b h e = lookup-AllValues less P p m b (h m refl) e

  pub buffer_at-AllBuffers :
      (P : Buffer Field Container → Type 0) (d : ℕ) (p : DomainIdPair)
      (ms : DeviceMap Field Container) (b : Buffer Field Container)
      → AllBuffers packing P ms
      → buffer_at packing d p ms ≡ some b
      → P b
  unfolding buffer_at
  buffer_at-AllBuffers P d p ms b h e =
      in_device-some P p (lookup ltb d ms) b
        (λ m f. lookup-AllValues ltb (AllValues less P) d ms m h f) e

  in_device-map :
      (g : Buffer Field Container → Buffer Field Container) (p : DomainIdPair)
      (o : Option (BufferMap Field Container))
      → in_device packing p (Option.map (map (λ e. (e.0, g e.1))) o)
        ≡ Option.map g (in_device packing p o)
  in_device-map g p none = refl
  in_device-map g p (some m) = lookup-map less g p m

  buffer_at-each_buffer :
      (g : Buffer Field Container → Buffer Field Container) (d : ℕ) (p : DomainIdPair)
      (ms : DeviceMap Field Container)
      → buffer_at packing d p (each_buffer packing g ms) ≡ Option.map g (buffer_at packing d p ms)
  unfolding buffer_at each_buffer
  buffer_at-each_buffer g d p ms =
      ap (in_device packing p) (lookup-map ltb (map (λ e. (e.0, g e.1))) d ms)
      ∙ in_device-map g p (lookup ltb d ms)

  -- Between exchanges, the buffers of two objects are missing or empty on both sides.
  Peers-Empty :
      (o u : Option (Buffer Field Container))
      → ((b : Buffer Field Container) → o ≡ some b → Empty packing b)
      → ((b : Buffer Field Container) → u ≡ some b → Empty packing b)
      → Peers packing o u
  Peers-Empty none none h k = tt
  Peers-Empty none (some c) h k = (k c refl).0
  Peers-Empty (some b) none h k = (h b refl).0
  Peers-Empty (some b) (some c) h k = (
    (h b refl).0 ∙ sym (k c refl).0,
    subst (λ x. Match packing x c.field_infos) (sym (h b refl).1)
        (subst (Match packing []) (sym (k c refl).1) tt),
  )

  pack_buffer-bytes :
      (values : Memory) (b : Buffer Field Container) (a : ℕ)
      → a < b.size
      → (pack_buffer packing values b).buffer a ≡ pack_infos packing values b.field_infos b.buffer a
  unfolding pack_buffer
  pack_buffer-bytes values b a h = let full : ltb 0 b.size ≡ true = ground arith in rw full refl

  pack_buffer-keeps :
      (values : Memory) (b : Buffer Field Container)
      → ((pack_buffer packing values b).size ≡ b.size)
        × ((pack_buffer packing values b).field_infos ≡ b.field_infos)
  unfolding pack_buffer
  pack_buffer-keeps values b = elim (Bool-cases (ltb 0 b.size)) [
    | inl e ↦ rw e (refl, refl)
    | inr e ↦ rw e (refl, refl)
  ]

  map-some :
      (g : Buffer Field Container → Buffer Field Container) (o : Option (Buffer Field Container))
      (b : Buffer Field Container)
      → Option.map g o ≡ some b
      → (b' : Buffer Field Container) × (o ≡ some b') × (g b' ≡ b)
  map-some g none b h = cc
  map-some g (some b') b h = (b', refl, some-injective (g b') b h)

  exchange-inversion :
      (max_tag_of : ℕ → ℕ) (bis : List (BufferInfo Field Container)) (values : Memory)
      (co co' : Object packing)
      → exchange packing max_tag_of bis values co ≡ some co'
      → (co.valid ≡ false) × (started packing max_tag_of bis values co ≡ co')
  exchange-inversion m bis values co co' h = elim (Bool-cases co.valid) [
    | inl e ↦ absurd (none-ne-some co' (sym (exchange-busy packing m bis values co e) ∙ h))
    | inr e ↦ (e, some-injective _ co' (sym (exchange-started packing m bis values co e) ∙ h))
  ]

  -- The fields of one exchange.
  abbrev allocated : (ℕ → ℕ) → List (BufferInfo Field Container) → Object packing → Object packing
  allocated max_tag_of bis co =
      allocate_fields packing (tags_of max_tag_of bis) bis (record co { valid = true })

  allocated-Peers :
      (max_s max_r : ℕ → ℕ) (bis_s bis_r : List (BufferInfo Field Container))
      (sender receiver : Object packing) (d e : ℕ) (p : DomainIdPair)
      → IsIdle packing sender
      → IsIdle packing receiver
      → Correspond packing
          (exchange_parts packing d p false (tags_of max_s bis_s) bis_s)
          (exchange_parts packing e p true (tags_of max_r bis_r) bis_r)
      → Peers packing
          (buffer_at packing d p (allocated max_s bis_s sender).send_memory)
          (buffer_at packing e p (allocated max_r bis_r receiver).recv_memory)
  allocated-Peers max_s max_r bis_s bis_r sender receiver d e p (is, _, _, _) (_, ir, _, _) corr =
      subst
        (λ x. Peers packing x (buffer_at packing e p (allocated max_r bis_r receiver).recv_memory))
        (sym (buffer_at-allocate_fields packing d p false (tags_of max_s bis_s) bis_s _))
        (subst (Peers packing (add_parts packing sent (buffer_at packing d p sender.send_memory)))
          (sym (buffer_at-allocate_fields packing e p true (tags_of max_r bis_r) bis_r _))
          (add_parts-Peers packing sent received _ _ corr (
            Peers-Empty _ _
              (λ b h. buffer_at-AllBuffers (Empty packing) d p sender.send_memory b is h)
              (λ b h. buffer_at-AllBuffers (Empty packing) e p receiver.recv_memory b ir h))))
    where
      sent : List (Part Field Container)
      sent = exchange_parts packing d p false (tags_of max_s bis_s) bis_s

      received : List (Part Field Container)
      received = exchange_parts packing e p true (tags_of max_r bis_r) bis_r

  -- What reaches the fields from one message whose buffers were allocated alike.
  deliver :
      (max_s max_r : ℕ → ℕ) (bis_s bis_r : List (BufferInfo Field Container))
      (sender receiver : Object packing) (d e : ℕ) (p : DomainIdPair) (b c : Buffer Field Container)
      (from to bytes : Memory)
      → LaidOut packing sender
      → LaidOut packing receiver
      → Peers packing
          (buffer_at packing d p (allocated max_s bis_s sender).send_memory)
          (buffer_at packing e p (allocated max_r bis_r receiver).recv_memory)
      → buffer_at packing d p (allocated max_s bis_s sender).send_memory ≡ some b
      → buffer_at packing e p (allocated max_r bis_r receiver).recv_memory ≡ some c
      → ((a : ℕ) → a < b.size → bytes a ≡ (pack_buffer packing from b).buffer a)
      → unpack_infos packing bytes c.field_infos to
        ≡ transfer_infos packing from b.field_infos to c.field_infos
  deliver max_s max_r bis_s bis_r sender receiver d e p b c from to bytes vs vr peers hb hc arrive =
      unpack-pack_transfer packing b c from to bytes
        (buffer_at-AllBuffers (Layout.IsValid packing) d p _ b
          (allocate_fields-LaidOut packing _ bis_s (record sender { valid = true }) vs).0 hb)
        (buffer_at-AllBuffers (Layout.IsValid packing) e p _ c
          (allocate_fields-LaidOut packing _ bis_r (record receiver { valid = true }) vr).1 hc)
        alike.0 alike.1 (λ a lt. arrive a lt ∙ pack_buffer-bytes from b a lt)
    where
      alike : (b.size ≡ c.size) × Match packing b.field_infos c.field_infos
      alike = subst (Peers packing (some b)) hc (
          subst
            (λ x.
              Peers packing x (buffer_at packing e p (allocated max_r bis_r receiver).recv_memory))
            hb peers)

  wait-single :
      (r : Request) (bytes to : Memory) (co : Object packing) (c : Buffer Field Container)
      → co.valid ≡ true
      → buffer_at packing r.device_id r.hook co.recv_memory ≡ some c
      → (wait packing ((r, bytes) ∷ []) co to).1 ≡ unpack_infos packing bytes c.field_infos to
  unfolding unpack
  wait-single r bytes to co c e h =
      ap (λ x. x.1) (wait-busy packing ((r, bytes) ∷ []) co to e) ∙ rw (h, unpack) refl

  -- Two objects between exchanges, both valid, start an exchange each, with any other fields and
  -- halos besides those that concern the pair `p` of domains, which correspond on the two sides: as
  -- many elements, and value types of the same size and alignment, part by part. The message for
  -- the pair arrives as the sender's buffer was packed, and the receiver waits for it. Then the
  -- receiver's fields are as if each element of the sender's parts had been copied to its
  -- counterpart directly.
  pub wait-exchange_transfer :
      (max_s max_r : ℕ → ℕ) (bis_s bis_r : List (BufferInfo Field Container))
      (from other to bytes : Memory) (sender sender' receiver receiver' : Object packing) (d : ℕ)
      (b c : Buffer Field Container) (r : Request)
      → IsValid packing sender
      → IsValid packing receiver
      → exchange packing max_s bis_s from sender ≡ some sender'
      → exchange packing max_r bis_r other receiver ≡ some receiver'
      → Correspond packing
          (exchange_parts packing d r.hook false (tags_of max_s bis_s) bis_s)
          (exchange_parts packing r.device_id r.hook true (tags_of max_r bis_r) bis_r)
      → buffer_at packing d r.hook sender'.send_memory ≡ some b
      → buffer_at packing r.device_id r.hook receiver'.recv_memory ≡ some c
      → ((a : ℕ) → a < b.size → bytes a ≡ b.buffer a)
      → (wait packing ((r, bytes) ∷ []) receiver' to).1
        ≡ transfer_infos packing from b.field_infos to c.field_infos
  unfolding pack post_recvs
  wait-exchange_transfer max_s max_r bis_s bis_r from other to bytes sender sender' receiver
        receiver' d b c r vs vr es er corr hb hc arrive =
      let (bs, ss) = exchange-inversion max_s bis_s from sender sender' es in
      let (br, sr) = exchange-inversion max_r bis_r other receiver receiver' er in
      let (b₀, h₀, packed) = map-some (pack_buffer packing from) _ b (
        sym (
          buffer_at-each_buffer (pack_buffer packing from) d r.hook
            (allocated max_s bis_s sender).send_memory)
        ∙ ap (λ (o : Object packing). buffer_at packing d r.hook o.send_memory) ss
        ∙ hb) in
      let there =
        ap (λ (o : Object packing). buffer_at packing r.device_id r.hook o.recv_memory) sr ∙ hc in
      let (size, infos) = pack_buffer-keeps from b₀ in
      ap (λ o. (wait packing ((r, bytes) ∷ []) o to).1) (sym sr)
      ∙ wait-single r bytes to (started packing max_r bis_r other receiver) c
          (started-valid packing max_r bis_r other receiver) there
      ∙ deliver max_s max_r bis_s bis_r sender receiver d r.device_id r.hook b₀ c from to bytes vs.0
          vr.0
          (allocated-Peers max_s max_r bis_s bis_r sender receiver d r.device_id r.hook
            (IsValid-IsIdle packing sender vs bs) (IsValid-IsIdle packing receiver vr br) corr)
          h₀ there
          (λ a lt.
            arrive a (subst (λ n. a < n) (sym size ∙ ap (λ x. x.size) packed) lt)
            ∙ ap (λ (x : Buffer Field Container). x.buffer a) (sym packed))
      ∙ ap (λ x. transfer_infos packing from x to c.field_infos)
          (sym infos ∙ ap (λ x. x.field_infos) packed)
