-- ===== src/Group/Subscribed.antt =====
-- reader.go: the topics that extractTopics collects, and the subscriptions of a member.
use kafka_go.Prelude.{
  ℕ, ◌≡◌, refl, ap, ◌+◌, Bool, false, ◌||◌, List, [], ◌∷◌, ◌++◌, if◌then◌else◌, arith,
}
use kafka_go.Prelude.Strings.{same, same_iff}
use kafka_go.GroupBalancer.{GroupMember}
use kafka_go.Group.{seen, insert_topic, sort_topics, visit, visit_members, extract_topics}

-- How often a topic stands in a list.
unfoldable pub occurrences : List ℕ → List (List ℕ) → ℕ
occurrences topic [] = 0
occurrences topic (t ∷ ts) = (if same t topic then 1 else 0) + occurrences topic ts

-- Whether one of the members is subscribed to a topic.
unfoldable pub subscribes : List ℕ → List GroupMember → Bool
subscribes topic [] = false
subscribes topic (m ∷ ms) = seen topic m.topics || subscribes topic ms

abbrev pub once : Bool → ℕ
once b = if b then 1 else 0

occurrences-insert_topic :
    (topic t : List ℕ) (ts : List (List ℕ))
    → occurrences topic (insert_topic t ts) ≡ occurrences topic (t ∷ ts)
unfolding occurrences insert_topic
occurrences-insert_topic topic t [] = refl
occurrences-insert_topic topic t (u ∷ us) = ground (arith, occurrences-insert_topic topic t us)

occurrences-sort_topics :
    (topic : List ℕ) (ts : List (List ℕ))
    → occurrences topic (sort_topics ts) ≡ occurrences topic ts
unfolding occurrences sort_topics
occurrences-sort_topics topic [] = refl
occurrences-sort_topics topic (t ∷ ts) =
    omega
      (arith, occurrences-insert_topic topic t (sort_topics ts), occurrences-sort_topics topic ts)

occurrences-append :
    (topic t : List ℕ) (ts : List (List ℕ))
    → occurrences topic (ts ++ t ∷ []) ≡ occurrences topic ts + once (same t topic)
unfolding occurrences
occurrences-append topic t [] = omega arith
occurrences-append topic t (u ∷ us) = omega (arith, occurrences-append topic t us)

seen-append :
    (topic t : List ℕ) (ts : List (List ℕ))
    → seen topic (ts ++ t ∷ []) ≡ seen topic ts || same t topic
unfolding seen
seen-append topic t [] = ground arith
seen-append topic t (u ∷ us) = ground (arith, seen-append topic t us)

one_topic :
    (topic t : List ℕ) (acc : List (List ℕ))
    → occurrences topic acc ≡ once (seen topic acc)
    → occurrences topic (if seen t acc then acc else acc ++ t ∷ [])
      ≡ once (seen topic acc || same t topic)
one_topic topic t acc h =
    ground
      (arith, occurrences-append topic t acc, same_iff t topic, ap (λ (u : List ℕ). seen u acc))

visited :
    (topic t : List ℕ) (acc : List (List ℕ))
    → seen topic (if seen t acc then acc else acc ++ t ∷ []) ≡ seen topic acc || same t topic
visited topic t acc =
    ground (arith, seen-append topic t acc, same_iff t topic, ap (λ (u : List ℕ). seen u acc))

occurrences-visit :
    (topic : List ℕ) (acc ts : List (List ℕ))
    → occurrences topic acc ≡ once (seen topic acc)
    → (occurrences topic (visit acc ts) ≡ once (seen topic acc || seen topic ts))
      × (seen topic (visit acc ts) ≡ seen topic acc || seen topic ts)
unfolding visit seen
occurrences-visit topic acc [] h = ground (arith, h)
occurrences-visit topic acc (t ∷ ts) h = ground (
  arith,
  h,
  one_topic topic t acc,
  visited topic t acc,
  occurrences-visit topic (if seen t acc then acc else acc ++ t ∷ []) ts,
)

occurrences-visit_members :
    (topic : List ℕ) (acc : List (List ℕ)) (ms : List GroupMember)
    → occurrences topic acc ≡ once (seen topic acc)
    → occurrences topic (visit_members acc ms) ≡ once (seen topic acc || subscribes topic ms)
unfolding visit_members subscribes
occurrences-visit_members topic acc [] h = ground (arith, h)
occurrences-visit_members topic acc (m ∷ ms) h = ground (
  arith,
  occurrences-visit topic acc m.topics h,
  occurrences-visit_members topic (visit acc m.topics) ms,
)

-- The topics of extractTopics are those that some member is subscribed to, each once.
pub occurrences-extract_topics :
    (topic : List ℕ) (members : List GroupMember)
    → occurrences topic (extract_topics members) ≡ (if subscribes topic members then 1 else 0)
unfolding extract_topics seen occurrences
occurrences-extract_topics topic members = omega (
  arith,
  occurrences-sort_topics topic (visit_members [] members),
  occurrences-visit_members topic [] members refl,
)
