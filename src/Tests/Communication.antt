-- ===== src/Tests/Communication.antt =====
-- include/ghex/communication_object_2.hpp on concrete inputs: two domains on two ranks, with one field
-- each, of 8-byte values on two levels.
use ghex.Base.{inl, ℕ, ◌+◌, ◌*◌, ◌≡◌, ◌≢◌, refl, false, List, [], ◌∷◌, some, none, ◌≤◌, ◌%◌, arith}
use ghex.Communication.Memory.{Memory}
use ghex.Communication.Packing.{}
use ghex.Communication.Pattern
use ghex.Communication.Pattern.{Pattern, BufferInfo, Bound, bind-Bound}
use ghex.Communication.Buffers.{Buffer, pair_of, ExtendedDomainId, FieldInfo, no_bytes, pack_infos}
use ghex.Communication.Buffers.Layout.{bytes_of}
use ghex.Communication.Object.Apart.{parts_apart}
use ghex.Communication.Buffers.Transfer.{transfer_infos}
use ghex.Communication.Buffers.Content.{same, parts_of, part_of, add_parts}
use ghex.Communication.Object.{
  Object, Request, make_communication_object, exchange, wait, pack, post_recvs, allocate_fields,
  tag_map, tag_offset, buffer_at,
}
use ghex.Communication.Object.TagMap.{tag_offset-distinct}
use ghex.Communication.Object.Steps.{
  Step, Steps, started, exchange-started, exchange-wait, Steps-IsValid,
}
use ghex.Communication.Object.Session.{IsValid}
use ghex.Communication.Object.Exchange.{exchange_parts, field_parts, buffer_at-allocate_fields}
use ghex.Communication.Object.Delivery.{wait-exchange_transfer}
use ghex.Unstructured.Data.{DataDescriptor, IterationSpace}
use ghex.Unstructured.Data.Elements.{unstructured_packing}

abbrev field_of : ℕ → DataDescriptor
field_of id = record {
  domain_id = id;
  domain_size = 4;
  levels = 2;
  values = 0;
  size_of = 8;
  align_of = 8;
}

abbrev space : ℕ → IterationSpace
space l = record { local_indices = l ∷ []; levels = 2 }

abbrev ext : ℕ → ℕ → ExtendedDomainId
ext id tag = record { id = id; mpi_rank = id; address = id; tag = tag }

-- Each domain sends its vertex with local index 1 and receives the one with local index 3.
abbrev pattern_of : ℕ → ℕ → Pattern IterationSpace
pattern_of id other = record {
  id = ext id 0;
  send_halos = (ext other (id * 128 + other), space 1) ∷ [];
  recv_halos = (ext other (other * 128 + id), space 3) ∷ [];
  container = 100 + id;
}

abbrev info_of : ℕ → ℕ → BufferInfo DataDescriptor IterationSpace
info_of id other = record { pattern = pattern_of id other; field = field_of id; device_id = 0 }

abbrev max_tag : ℕ → ℕ
max_tag p = 129

abbrev fresh : Object unstructured_packing
fresh = make_communication_object

abbrev running : ℕ → ℕ → Memory → Object unstructured_packing
running id other values = started unstructured_packing max_tag (info_of id other ∷ []) values fresh

abbrev values_0 : Memory
values_0 a = a + 1000

abbrev values_1 : Memory
values_1 a = 0

abbrev sent : FieldInfo DataDescriptor IterationSpace
sent = record { call_back = field_of 0; index_container = space 1; offset = 0 }

abbrev received : FieldInfo DataDescriptor IterationSpace
received = record { call_back = field_of 1; index_container = space 3; offset = 0 }

abbrev send_buffer : Buffer DataDescriptor IterationSpace
send_buffer = record {
  address = 1;
  tag = 1;
  buffer = pack_infos unstructured_packing values_0 (sent ∷ []) no_bytes;
  size = 16;
  field_infos = sent ∷ [];
}

abbrev recv_buffer : Buffer DataDescriptor IterationSpace
recv_buffer = record {
  address = 0;
  tag = 1;
  buffer = no_bytes;
  size = 16;
  field_infos = received ∷ [];
}

abbrev request : Request
request = record {
  device_id = 0;
  hook = record { first_id = 1; second_id = 0 };
  address = 0;
  tag = 1;
  size = 16;
}

fresh-IsValid : IsValid unstructured_packing fresh
fresh-IsValid = Steps-IsValid unstructured_packing fresh Steps.stay

fresh_idle : fresh.valid ≡ false
unfolding make_communication_object
fresh_idle = refl

exchange-running :
    (id other : ℕ) (values : Memory)
    → exchange unstructured_packing max_tag (info_of id other ∷ []) values fresh
      ≡ some (running id other values)
exchange-running id other values =
    exchange-started unstructured_packing max_tag (info_of id other ∷ []) values fresh fresh_idle

sent_there :
    buffer_at unstructured_packing 0 request.hook (running 0 1 values_0).send_memory
    ≡ some send_buffer
unfolding buffer_at pack post_recvs allocate_fields make_communication_object pack_infos
    unstructured_packing tag_map
sent_there = refl

received_there :
    buffer_at unstructured_packing 0 request.hook (running 1 0 values_1).recv_memory
    ≡ some recv_buffer
unfolding buffer_at pack post_recvs allocate_fields make_communication_object pack_infos
    unstructured_packing tag_map
received_there = refl

wait-exchange_transfer_example :
    (wait unstructured_packing
      ((request, send_buffer.buffer) ∷ [])
      (running 1 0 values_1)
      values_1).1
    ≡ transfer_infos unstructured_packing values_0 (sent ∷ []) values_1 (received ∷ [])
unfolding exchange_parts field_parts parts_of part_of same pair_of unstructured_packing
wait-exchange_transfer_example =
    wait-exchange_transfer unstructured_packing max_tag max_tag (info_of 0 1 ∷ [])
      (info_of 1 0 ∷ []) values_0 values_1 values_1 send_buffer.buffer fresh (running 0 1 values_0)
      fresh (running 1 0 values_1) 0 send_buffer recv_buffer request fresh-IsValid fresh-IsValid
      (exchange-running 0 1 values_0) (exchange-running 1 0 values_1) (refl, refl, refl, tt)
      sent_there received_there (λ a lt. refl)

-- The byte 5 of the second level of the received vertex.
received_byte :
    (wait unstructured_packing
        ((request, send_buffer.buffer) ∷ [])
        (running 1 0 values_1)
        values_1).1
      (3 * 16 + 13)
    ≡ 1 * 16 + 13 + 1000
unfolding wait pack post_recvs allocate_fields make_communication_object pack_infos
    unstructured_packing
received_byte = refl

exchange-wait_example :
    (co' : Object unstructured_packing) × (exchange unstructured_packing max_tag
        (info_of 0 1 ∷ [])
        values_0
        fresh
      ≡ some co')
    × ((other : List (BufferInfo DataDescriptor IterationSpace))
        → exchange unstructured_packing max_tag other values_0 co' ≡ none)
    × ((wait unstructured_packing [] co' values_0).0.valid ≡ false)
    × ((again : List (Request × Memory)) (later : Memory)
        → wait unstructured_packing again (wait unstructured_packing [] co' values_0).0 later
          ≡ ((wait unstructured_packing [] co' values_0).0, later))
exchange-wait_example =
    exchange-wait unstructured_packing max_tag (info_of 0 1 ∷ []) values_0 [] fresh fresh_idle

-- An exchange, and another after it has been waited for.
Steps-IsValid_example :
    IsValid unstructured_packing
      (wait unstructured_packing ((request, no_bytes) ∷ []) (running 1 0 values_1) values_1).0
Steps-IsValid_example =
    Steps-IsValid unstructured_packing
      (wait unstructured_packing ((request, no_bytes) ∷ []) (running 1 0 values_1) values_1).0
      (Steps.step
        (Steps.step Steps.stay
          (Step.exchanged max_tag (info_of 1 0 ∷ []) values_1 (exchange-running 1 0 values_1)))
        (Step.waited ((request, no_bytes) ∷ []) values_1))

buffer_at-allocate_fields_example :
    buffer_at unstructured_packing 0 request.hook
      (allocate_fields unstructured_packing [] (info_of 0 1 ∷ []) fresh).send_memory
    ≡ add_parts unstructured_packing
        (exchange_parts unstructured_packing 0 request.hook false [] (info_of 0 1 ∷ []))
        (buffer_at unstructured_packing 0 request.hook fresh.send_memory)
buffer_at-allocate_fields_example =
    buffer_at-allocate_fields unstructured_packing 0 request.hook false [] (info_of 0 1 ∷ []) fresh

-- Three fields, two of them with one pattern container.
tag_offset-distinct_example :
    129 + tag_offset (tag_map max_tag (100 ∷ 101 ∷ 100 ∷ []) [] 0).0 100
    ≢ 0 + tag_offset (tag_map max_tag (100 ∷ 101 ∷ 100 ∷ []) [] 0).0 101
tag_offset-distinct_example =
    tag_offset-distinct max_tag (100 ∷ 101 ∷ 100 ∷ []) 2 1 100 101 129 0 refl refl
      (λ h. omega (arith, h)) (omega arith) (omega arith)

-- A second field with one pattern, of 2-byte values.
abbrev short_field : DataDescriptor
short_field = record (field_of 0) { size_of = 2; align_of = 2 }

abbrev two_fields : List (BufferInfo DataDescriptor IterationSpace)
two_fields = record (info_of 0 1) { field = short_field } ∷ info_of 0 1 ∷ []

abbrev short_part : FieldInfo DataDescriptor IterationSpace
short_part = record { call_back = short_field; index_container = space 1; offset = 0 }

abbrev long_part : FieldInfo DataDescriptor IterationSpace
long_part = record { call_back = field_of 0; index_container = space 1; offset = 8 }

-- Four bytes, four of padding, and sixteen.
abbrev two_parts : Buffer DataDescriptor IterationSpace
two_parts = record {
  address = 1;
  tag = 1;
  buffer = pack_infos unstructured_packing values_0 (short_part ∷ long_part ∷ []) no_bytes;
  size = 24;
  field_infos = short_part ∷ long_part ∷ [];
}

abbrev both_running : Object unstructured_packing
both_running = started unstructured_packing max_tag two_fields values_0 fresh

two_parts_there :
    buffer_at unstructured_packing 0 request.hook both_running.send_memory ≡ some two_parts
unfolding buffer_at pack post_recvs allocate_fields make_communication_object pack_infos
    unstructured_packing tag_map
two_parts_there = refl

parts_apart_example :
    ((0 ≤ 0) × (0 + bytes_of unstructured_packing short_part ≤ 24) × (0 % 2 ≡ 0))
    × ((0 ≤ 8) × (8 + bytes_of unstructured_packing long_part ≤ 24) × (8 % 8 ≡ 0))
    × (0 + bytes_of unstructured_packing short_part ≤ 8)
unfolding unstructured_packing
parts_apart_example =
    parts_apart unstructured_packing both_running two_parts 0 1 short_part long_part
      (Steps.step Steps.stay (
        Step.exchanged max_tag two_fields values_0
          (exchange-started unstructured_packing max_tag two_fields values_0 fresh fresh_idle)))
      (0, request.hook, inl two_parts_there) (omega arith, (omega arith, tt)) (omega arith) refl
      refl

bind-Bound_example :
    Bound unstructured_packing
      (pattern_of 0 1 ∷ pattern_of 1 0 ∷ [])
      (field_of 1)
      (Pattern.bind unstructured_packing (pattern_of 0 1 ∷ pattern_of 1 0 ∷ []) (field_of 1))
bind-Bound_example =
    bind-Bound unstructured_packing (pattern_of 0 1 ∷ pattern_of 1 0 ∷ []) (field_of 1)
