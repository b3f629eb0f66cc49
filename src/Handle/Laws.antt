-- ===== src/Handle/Laws.antt =====
-- Handles as pairs of a type and an index: source/handle/handle.hpp.
use cortex_m3_rtos.Prelude.{ℕ, ◌^◌, ◌<◌, ◌≡◌, refl, ap, ◌∙◌, arith}
use cortex_m3_rtos.Handle.{ObjectType, type_value, type_of_value, create, get_object_type, get_id}

type_of_value_lem : (t : ObjectType) → type_of_value (type_value t) ≡ t
type_of_value_lem ObjectType.task = refl
type_of_value_lem ObjectType.timer = refl
type_of_value_lem ObjectType.event = refl
type_of_value_lem ObjectType.queue = refl
type_of_value_lem (ObjectType.other n) = refl

-- A handle made of a type and an index, each below 2 ^ 16, is a 32-bit word that gives both back.
pub create_lem :
    (t : ObjectType) (index : ℕ)
    → type_value t < 2 ^ 16
    → index < 2 ^ 16
    → (create t index < 2 ^ 32)
      × (get_object_type (create t index) ≡ t)
      × (get_id (create t index) ≡ index)
unfolding create get_object_type get_id
create_lem t index ht hi =
    (omega arith, ap type_of_value (omega arith) ∙ type_of_value_lem t, omega arith)
