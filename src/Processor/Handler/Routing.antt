-- ===== src/Processor/Handler/Routing.antt =====
-- Which handlers pkg/processor/handler.go finds for an event type.
use flowctl_sdk.Base.{
  ℕ, suc, ◌+◌, ◌≡◌, refl, sym, ap, ◌∙◌, Bool, true, false, List, [], ◌∷◌, ◌++◌, append-nil,
  append_assoc, String, str_eq, eq_iff, if◌then◌else◌, replicate, count, arith,
}
use flowctl_sdk.Base.Dict.{get, put, get-put}
use flowctl_sdk.Processor.Handler.{
  Handler, Registry, new_registry, get_handlers_for_type, register_types, register,
}

-- `register` for one handler after another.
abbrev pub register_all : List Handler → Registry → Registry
register_all [] r = r
register_all (h ∷ hs) r = register_all hs (register h r)

-- A handler is listed once for each time its input types name the type.
abbrev pub routed : String → List Handler → List Handler
routed t [] = []
routed t (h ∷ hs) = replicate (count (str_eq t) h.input_types) h ++ routed t hs

get_handlers_put :
    (k t : String) (hs : List Handler) (r : Registry)
    → get_handlers_for_type t (put k hs r) ≡ (if str_eq t k then hs else get_handlers_for_type t r)
unfolding get_handlers_for_type
get_handlers_put k t hs r = ground (arith, get-put k t hs r, eq_iff k t, eq_iff t k)

repeat_one :
    (b : Bool) (h : Handler) (n : ℕ) (gs ks : List Handler)
    → (b ≡ true → ks ≡ gs)
    → (if b then ks ++ h ∷ [] else gs) ++ replicate n h
      ≡ gs ++ replicate ((if b then 1 else 0) + n) h
repeat_one true h n gs ks e = rw (e refl) (
    append_assoc gs (h ∷ []) (replicate n h)
    ∙ ap (λ m. gs ++ replicate m h) {x = suc n} (omega arith))
repeat_one false h n gs ks e = ap (λ m. gs ++ replicate m h) (omega arith)

register_types_lem :
    (h : Handler) (t : String) (ts : List String) (r : Registry)
    → get_handlers_for_type t (register_types h ts r)
      ≡ get_handlers_for_type t r ++ replicate (count (str_eq t) ts) h
unfolding register_types
register_types_lem h t [] r = rw append-nil refl
register_types_lem h t (k ∷ ts) r =
    register_types_lem h t ts (put k (get_handlers_for_type k r ++ h ∷ []) r)
    ∙ rw (get_handlers_put k t (get_handlers_for_type k r ++ h ∷ []) r) (
        repeat_one (str_eq t k) h (count (str_eq t) ts) (get_handlers_for_type t r)
          (get_handlers_for_type k r)
          (λ q. ap (λ x. get_handlers_for_type x r) (sym ((eq_iff t k).0 q))))

register_all_lem :
    (t : String) (hs : List Handler) (r : Registry)
    → get_handlers_for_type t (register_all hs r) ≡ get_handlers_for_type t r ++ routed t hs
unfolding register
register_all_lem t [] r = rw append-nil refl
register_all_lem t (h ∷ hs) r =
    register_all_lem t hs (register h r)
    ∙ rw (register_types_lem h t h.input_types r) (
        append_assoc (get_handlers_for_type t r) (replicate (count (str_eq t) h.input_types) h)
          (routed t hs))

-- After any registrations, the handlers of a type are those that name it among their input types, in
-- the order in which they were registered.
pub handlers_in_order :
    (t : String) (hs : List Handler)
    → get_handlers_for_type t (register_all hs new_registry) ≡ routed t hs
unfolding get_handlers_for_type get new_registry
handlers_in_order t hs = register_all_lem t hs new_registry
