-- ===== src/Sink/Kafka/Route.antt =====
-- Router and NewRouter of internal/kafkasink/kafkasink.go.
use evm_tools.Base.{
  ◌≡◌, ◌≢◌, inl, inr, refl, sym, ap, Bool, true, false, Bool-cases, Option, none, some, List, [],
  ◌∷◌, Text, codes, if◌then◌else◌, text_eq, text_eq_refl, text_eq_sound,
}
use evm_tools.Record.Envelope.{Envelope, type_name}
use evm_tools.Record.Key.{dedup_key, partition_identity}
use evm_tools.Record.Key.Identity.{IsKeyable}
use evm_tools.Record.Key.Partition.{dedup-partition}

pub data KeyMode : Type 0 where
  by_identity by_dedup no_key : KeyMode

pub record Router : Type 0 where
  pub default_topic : Text
  pub by_type : List (Text × Text)
  pub key_mode : KeyMode

abbrev key_mode_of : Text → Option KeyMode
key_mode_of m =
    if text_eq m []
    then some by_identity
    else if text_eq m (codes "identity")
    then some by_identity
    else if text_eq m (codes "dedup")
    then some by_dedup
    else if text_eq m (codes "none")
    then some no_key
    else none

abbrev pub no_map : List (Text × Text) → Bool
no_map [] = true
no_map (p ∷ m) = false

abbrev with_mode : Text → List (Text × Text) → Option KeyMode → Option Router
with_mode default_topic by_type none = none
with_mode default_topic by_type (some mode) =
    some (record { default_topic = default_topic; by_type = by_type; key_mode = mode })

-- NewRouter; none is either error.
unfoldable pub new_router : Text → List (Text × Text) → Text → Option Router
new_router default_topic by_type mode =
    if (if text_eq default_topic [] then no_map by_type else false)
    then none
    else with_mode default_topic by_type (key_mode_of mode)

unfoldable pub topic_at : List (Text × Text) → Text → Option Text
topic_at [] t = none
topic_at ((s, topic) ∷ m) t = if text_eq s t then some topic else topic_at m t

abbrev pub or_default : Text → Option Text → Text
or_default d none = d
or_default d (some t) = if text_eq t [] then d else t

-- The topic of a record, empty where it has none.
unfoldable pub topic_of : {D : Type 0} → Router → Envelope D → Text
topic_of r env = or_default r.default_topic (topic_at r.by_type (type_name env.type))

-- The key of a record; none for no key.
unfoldable pub key_of : {D : Type 0} → KeyMode → Envelope D → Option Text
key_of by_identity env = some (partition_identity env)
key_of by_dedup env = some (dedup_key env)
key_of no_key env = none

-- Router.Route; none is its error.
unfoldable pub route : {D : Type 0} → Router → Envelope D → Option (Text × Option Text)
route r env =
    let topic = topic_of r env in
    if text_eq topic [] then none else some (topic, key_of r.key_mode env)

not_empty : (t : Text) → t ≢ [] → text_eq t [] ≡ false
not_empty t h = elim (Bool-cases (text_eq t [])) [
  | inl same ↦ absurd (h (text_eq_sound t [] same))
  | inr other ↦ other
]

topic_of-ne-nil :
    (r : Router) (t : Option Text) → r.default_topic ≢ [] → or_default r.default_topic t ≢ []
topic_of-ne-nil r none h = h
topic_of-ne-nil r (some t) h = elim (Bool-cases (text_eq t [])) [
  | inl blank ↦ rw blank h
  | inr named ↦ rw named (λ e. absurd (cc (named, text_eq_refl t, e)))
]

module _ {D : Type 0} where
  topic_of-eq : (r : Router) (e f : Envelope D) → e.type ≡ f.type → topic_of r e ≡ topic_of r f
  unfolding topic_of
  topic_of-eq r e f same =
      ap (λ t. or_default r.default_topic (topic_at r.by_type (type_name t))) same

  -- With a default topic every record has a topic; and where the keys are by identity, two records
  -- of one type with the same dedup key, in whose texts the separator does not occur, go to one topic
  -- under one key: a duplicate follows its first delivery.
  pub route-dedup_key :
      (r : Router) (e f : Envelope D)
      → r.default_topic ≢ []
      → r.key_mode ≡ by_identity
      → IsKeyable e
      → IsKeyable f
      → e.type ≡ f.type
      → dedup_key e ≡ dedup_key f
      → (topic key : Text) × (topic ≢ [])
        × (route r e ≡ some (topic, some key))
        × (route r f ≡ some (topic, some key))
  unfolding route key_of topic_of
  route-dedup_key r e f some_default mode he hf same h =
      let named = topic_of-ne-nil r (topic_at r.by_type (type_name e.type)) some_default in
      (
        topic_of r e,
        partition_identity e,
        named,
        rw (not_empty (topic_of r e) named, mode) refl,
        rw
            (
              sym (topic_of-eq r e f same),
              not_empty (topic_of r e) named,
              mode,
              sym (dedup-partition e f he hf same h),
            )
            refl,
      )
