-- ===== src/Communication/Packing.antt =====
-- What the communication object asks of a field descriptor and of the pattern's containers of
-- iteration spaces: `pattern_type::num_elements`, and the descriptor's `domain_id`,
-- `device_id`, `num_components`, `value_type`, `pack` and `unpack`. Each kind of grid fills the record.
use ghex.Base.{ℕ, ◌*◌, ◌≡◌, List, length}
use ghex.Communication.Memory.{Memory, gather, scatter}

pub record Packing (Field Container : Type 0) : Type 0 where
  pub domain_id : Field → ℕ
  pub device_id : Field → ℕ
  -- `sizeof` and `alignof` of the field's value type
  pub size_of : Field → ℕ
  pub align_of : Field → ℕ
  pub num_components : Field → ℕ
  pub num_elements : Container → ℕ
  -- from the field's memory to the buffer, from an offset on, and back
  pub pack : Field → Container → Memory → Memory → ℕ → Memory
  pub unpack : Field → Container → Memory → Memory → ℕ → Memory
  -- the addresses of the container's values in the field's memory, and what the loops do with them
  pub elements : Field → Container → List ℕ
  pub length-elements :
      (f : Field) (c : Container) → length (elements f c) ≡ num_elements c * num_components f
  pub pack-gather :
      (f : Field) (c : Container) (values buffer : Memory) (at : ℕ)
      → pack f c values buffer at ≡ gather (size_of f) values (elements f c) buffer at
  pub unpack-scatter :
      (f : Field) (c : Container) (values buffer : Memory) (at : ℕ)
      → unpack f c values buffer at ≡ scatter (size_of f) values (elements f c) buffer at
