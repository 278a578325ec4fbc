-- ===== src/Communication/Object/Session.antt =====
-- include/ghex/communication_object_2.hpp: the buffers of all devices.
use mathlib.Core.Option.{}
use ghex.Base.{ℕ, ◌≡◌, ◌⊎◌, refl, true, false, List, [], ◌∷◌, map, All, Bool-cases, inl, inr, ltb}
use ghex.Base.OrderedMap.{AllValues, upsert-AllValues}
use ghex.Communication.Memory.{Memory}
use ghex.Communication.Packing.{Packing}
use ghex.Communication.Pattern.{BufferInfo}
use ghex.Communication.Buffers.{Buffer, BufferMap, less}
use ghex.Communication.Buffers.Layout.{allocate-AllValid}
use ghex.Communication.Buffers.Layout
use ghex.Communication.Object.{
  Object, DeviceMap, at_device, allocate_field, allocate_fields, each_buffer, pack_buffer,
  clear_buffer, clear,
}

module _ {Field Container : Type 0} (packing : Packing Field Container) where
  -- Every buffer of every device.
  abbrev pub AllBuffers : (Buffer Field Container → Type 0) → DeviceMap Field Container → Type 0
  AllBuffers P = All (λ m. AllValues less P m.1)

  abbrev pub Empty : Buffer Field Container → Type 0
  Empty b = (b.size ≡ 0) × (b.field_infos ≡ [])

  abbrev pub LaidOut : Object packing → Type 0
  LaidOut co =
      AllBuffers (Layout.IsValid packing) co.send_memory
      × AllBuffers (Layout.IsValid packing) co.recv_memory

  -- Between exchanges.
  abbrev pub IsIdle : Object packing → Type 0
  IsIdle co =
      AllBuffers Empty co.send_memory
      × AllBuffers Empty co.recv_memory
      × (co.recv_futures ≡ [])
      × (co.send_futures ≡ [])

  abbrev pub IsValid : Object packing → Type 0
  IsValid co = LaidOut co × ((co.valid ≡ true) ⊎ IsIdle co)

  at_device-AllBuffers :
      (P : Buffer Field Container → Type 0) (d : ℕ)
      (g : BufferMap Field Container → BufferMap Field Container) (ms : DeviceMap Field Container)
      → ((m : BufferMap Field Container) → AllValues less P m → AllValues less P (g m))
      → AllBuffers P ms
      → AllBuffers P (at_device packing d g ms)
  unfolding at_device
  at_device-AllBuffers P d g ms h v =
      upsert-AllValues ltb (AllValues less P) d (g []) g ms (h [] tt) h v

  pub allocate_fields-LaidOut :
      (tags : List (ℕ × ℕ)) (bis : List (BufferInfo Field Container)) (co : Object packing)
      → LaidOut co
      → LaidOut (allocate_fields packing tags bis co)
  unfolding allocate_fields allocate_field
  allocate_fields-LaidOut tags [] co v = v
  allocate_fields-LaidOut tags (bi ∷ bis) co (s, r) =
      allocate_fields-LaidOut tags bis (allocate_field packing tags bi co) (
        at_device-AllBuffers (Layout.IsValid packing) bi.device_id _ co.send_memory
            (allocate-AllValid packing false bi.field _ _ bi.pattern.send_halos) s,
        at_device-AllBuffers (Layout.IsValid packing) bi.device_id _ co.recv_memory
            (allocate-AllValid packing true bi.field _ _ bi.pattern.recv_halos) r,
      )

  pub allocate_fields-valid :
      (tags : List (ℕ × ℕ)) (bis : List (BufferInfo Field Container)) (co : Object packing)
      → (allocate_fields packing tags bis co).valid ≡ co.valid
  unfolding allocate_fields allocate_field
  allocate_fields-valid tags [] co = refl
  allocate_fields-valid tags (bi ∷ bis) co =
      allocate_fields-valid tags bis (allocate_field packing tags bi co)

  buffers-All :
      (P Q : Buffer Field Container → Type 0) (g : Buffer Field Container → Buffer Field Container)
      (m : BufferMap Field Container)
      → ((b : Buffer Field Container) → P b → Q (g b))
      → AllValues less P m
      → AllValues less Q (map (λ e. (e.0, g e.1)) m)
  buffers-All P Q g [] h v = tt
  buffers-All P Q g (e ∷ m) h v = (h e.1 v.0, buffers-All P Q g m h v.1)

  pub each_buffer-AllBuffers :
      (P Q : Buffer Field Container → Type 0) (g : Buffer Field Container → Buffer Field Container)
      (ms : DeviceMap Field Container)
      → ((b : Buffer Field Container) → P b → Q (g b))
      → AllBuffers P ms
      → AllBuffers Q (each_buffer packing g ms)
  unfolding each_buffer
  each_buffer-AllBuffers P Q g [] h v = tt
  each_buffer-AllBuffers P Q g (m ∷ ms) h v =
      (buffers-All P Q g m.1 h v.0, each_buffer-AllBuffers P Q g ms h v.1)

  pub pack_buffer-IsValid :
      (values : Memory) (b : Buffer Field Container)
      → Layout.IsValid packing b
      → Layout.IsValid packing (pack_buffer packing values b)
  unfolding pack_buffer
  pack_buffer-IsValid values b v = elim (Bool-cases (ltb 0 b.size)) [
    | inl e ↦ rw e v
    | inr e ↦ rw e v
  ]

  pub clear-IsIdle : (co : Object packing) → LaidOut co → IsIdle (clear packing co)
  unfolding clear clear_buffer
  clear-IsIdle co (s, r) = (
    each_buffer-AllBuffers (Layout.IsValid packing) Empty (clear_buffer packing) co.send_memory
        (λ b v. (refl, refl)) s,
    each_buffer-AllBuffers (Layout.IsValid packing) Empty (clear_buffer packing) co.recv_memory
        (λ b v. (refl, refl)) r,
    refl,
    refl,
  )
