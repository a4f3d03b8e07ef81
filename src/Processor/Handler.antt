-- ===== src/Processor/Handler.antt =====
-- pkg/processor/handler.go. A handler is known by a number, as Go tells two pointers apart; what its
-- function does is in the script of a stream (Processor/Stream.antt).
pub mod Routing
use flowctl_sdk.Base.{
  ℕ, Bool, true, List, [], ◌∷◌, ◌++◌, Option, none, some, String, ◌==◌, ◌||◌, false, if◌then◌else◌,
  map,
}
use flowctl_sdk.Base.Dict.{Dict, get, put}

pub record Handler : Type 0 where
  pub key : ℕ
  pub input_types : List String
  pub output_types : List String

abbrev pub Registry : Type 0
Registry = Dict (List Handler)

unfoldable pub new_registry : Registry
new_registry = []

-- A missing key reads as a nil slice.
unfoldable pub get_handlers_for_type : String → Registry → List Handler
get_handlers_for_type t r = elim (get t r) [ none ↦ [] | some hs ↦ hs ]

-- The loop of Register over the handler's input types.
unfoldable pub register_types : Handler → List String → Registry → Registry
unfolding get_handlers_for_type
register_types h [] r = r
register_types h (t ∷ ts) r = register_types h ts (put t (get_handlers_for_type t r ++ h ∷ []) r)

unfoldable pub register : Handler → Registry → Registry
unfolding register_types
register h r = register_types h h.input_types r

-- `_, ok := seen[handler]`; the keys of `seen` are those of the handlers gathered so far.
unfoldable pub seen : Handler → List Handler → Bool
seen h [] = false
seen h (g ∷ gs) = (g.key == h.key) || seen h gs

unfoldable pub gather : List Handler → List Handler → List Handler
unfolding seen
gather out [] = out
gather out (h ∷ hs) = gather (if seen h out then out else out ++ h ∷ []) hs

unfoldable pub gather_all : List Handler → Registry → List Handler
unfolding gather
gather_all out [] = out
gather_all out ((t, hs) ∷ r) = gather_all (gather out hs) r

unfoldable pub get_all_handlers : Registry → List Handler
unfolding gather_all
get_all_handlers r = gather_all [] r

unfoldable pub get_all_input_types : Registry → List String
get_all_input_types [] = []
get_all_input_types ((t, hs) ∷ r) = t ∷ get_all_input_types r

-- `typeMap[outputType] = struct{}{}` for the types of one handler, of a slice, and of the registry.
unfoldable pub mark_types : Dict Bool → List String → Dict Bool
mark_types m [] = m
mark_types m (t ∷ ts) = mark_types (put t true m) ts

unfoldable pub mark_handlers : Dict Bool → List Handler → Dict Bool
unfolding mark_types
mark_handlers m [] = m
mark_handlers m (h ∷ hs) = mark_handlers (mark_types m h.output_types) hs

unfoldable pub mark_registry : Dict Bool → Registry → Dict Bool
unfolding mark_handlers
mark_registry m [] = m
mark_registry m ((t, hs) ∷ r) = mark_registry (mark_handlers m hs) r

unfoldable pub get_all_output_types : Registry → List String
unfolding mark_registry
get_all_output_types r = map (λ e. e.0) (mark_registry [] r)
