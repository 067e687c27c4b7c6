-- ===== src/Fragmenter/Sizes/Spans.antt =====
-- internal/fragmenter/spanenc.go: the sizes of spans, events, links, resources and scopes.
use retrosampler.Prelude.{
  ℕ, ◌+◌, ◌*◌, ◌<◌, ◌≡◌, arith, List, [], ◌∷◌, length, All, Bool-cases, inl, inr,
}
use retrosampler.Prelude.Bytes.{Bytes}
use retrosampler.Fragmenter.Proto.{i64_wire, str, msg, varint_f, fixed64_f}
use retrosampler.Fragmenter.Value.{put_attrs}
use retrosampler.Fragmenter.Span.{
  Status, Event, Link, Span, Resource, Scope, is_empty_id, size_id, put_id,
}
use retrosampler.Fragmenter.Span.{
  size_status, put_status, size_event, put_event, size_link, put_link,
}
use retrosampler.Fragmenter.Span.{
  size_events, put_events, size_links, put_links, size_status_field, put_status_field,
}
use retrosampler.Fragmenter.Span.{
  size_span, put_span, size_resource, put_resource, size_scope, put_scope,
}
use retrosampler.Fragmenter.Sizes.Scalars.{
  length-msg, length-str, length-bytes_f_cons, length-varint_f, length-fixed64_f, length-fixed32_f,
}
use retrosampler.Fragmenter.Sizes.Attrs.{empty_bytes_pairs, length-put_attrs}

abbrev empty_bytes_events : List Event → ℕ
empty_bytes_events [] = 0
empty_bytes_events (ev ∷ evs) = empty_bytes_pairs ev.attributes + empty_bytes_events evs

abbrev empty_bytes_links : List Link → ℕ
empty_bytes_links [] = 0
empty_bytes_links (lk ∷ lks) = empty_bytes_pairs lk.attributes + empty_bytes_links lks

-- How often an empty byte string stands in the attributes of a span, its events and its links.
unfoldable pub empty_bytes_span : Span → ℕ
empty_bytes_span sp =
    empty_bytes_pairs sp.attributes + empty_bytes_events sp.events + empty_bytes_links sp.links

-- The sizes of the id arrays of Go.
abbrev pub HasIdSizes : Span → Type 0
HasIdSizes sp =
    (length sp.trace_id ≡ 16)
    × (length sp.span_id ≡ 8)
    × (length sp.parent_span_id ≡ 8)
    × All (λ lk. (length lk.trace_id ≡ 16) × (length lk.span_id ≡ 8)) sp.links

length-put_id :
    (e : Bytes) (field n : ℕ) (id : Bytes)
    → field < 32
    → 0 < n
    → length id ≡ n
    → length (put_id e field id) ≡ length e + size_id field n id
unfolding put_id size_id
length-put_id e field n [] hf pos h = absurd (omega arith)
length-put_id e field n (b ∷ id) hf pos h = elim (Bool-cases (is_empty_id (b ∷ id))) [
  | inl none ↦ rw none (omega arith)
  | inr set ↦ rw set (rw (length-bytes_f_cons e field hf b id, h))
]

length-put_status : (e : Bytes) (st : Status) → length (put_status e st) ≡ length e + size_status st
unfolding put_status size_status
length-put_status e st = omega (
  arith,
  length-str e 2 (omega arith) st.message,
  length-varint_f (str e 2 st.message) 3 (omega arith) (i64_wire st.code),
)

length-put_event :
    (e : Bytes) (ev : Event)
    → length (put_event e ev) + 2 * empty_bytes_pairs ev.attributes ≡ length e + size_event ev
unfolding put_event size_event
length-put_event e ev =
    let e1 = fixed64_f e 1 ev.timestamp in
    let e2 = str e1 2 ev.name in
    let e3 = put_attrs e2 3 ev.attributes in
    omega (
      arith,
      length-fixed64_f e 1 (omega arith) ev.timestamp,
      length-str e1 2 (omega arith) ev.name,
      length-put_attrs e2 3 ev.attributes (omega arith),
      length-varint_f e3 4 (omega arith) ev.dropped_attributes,
    )

length-put_link :
    (e : Bytes) (lk : Link)
    → length lk.trace_id ≡ 16
    → length lk.span_id ≡ 8
    → length (put_link e lk) + 2 * empty_bytes_pairs lk.attributes ≡ length e + size_link lk
unfolding put_link size_link
length-put_link e lk ht hs =
    let e1 = put_id e 1 lk.trace_id in
    let e2 = put_id e1 2 lk.span_id in
    let e3 = str e2 3 lk.trace_state in
    let e4 = put_attrs e3 4 lk.attributes in
    let e5 = varint_f e4 5 lk.dropped_attributes in
    omega (
      arith,
      length-put_id e 1 16 lk.trace_id (omega arith) (omega arith) ht,
      length-put_id e1 2 8 lk.span_id (omega arith) (omega arith) hs,
      length-str e2 3 (omega arith) lk.trace_state,
      length-put_attrs e3 4 lk.attributes (omega arith),
      length-varint_f e4 5 (omega arith) lk.dropped_attributes,
      length-fixed32_f e5 6 (omega arith) lk.flags,
    )

length-put_events :
    (e : Bytes) (evs : List Event)
    → length (put_events e evs) + 2 * empty_bytes_events evs ≡ length e + size_events evs
unfolding put_events size_events
length-put_events e [] = omega arith
length-put_events e (ev ∷ evs) =
    let e1 = msg e 11 (size_event ev) in
    omega (
      arith,
      length-msg e 11 (omega arith) (size_event ev),
      length-put_event e1 ev,
      length-put_events (put_event e1 ev) evs,
    )

length-put_links :
    (e : Bytes) (lks : List Link)
    → All (λ lk. (length lk.trace_id ≡ 16) × (length lk.span_id ≡ 8)) lks
    → length (put_links e lks) + 2 * empty_bytes_links lks ≡ length e + size_links lks
unfolding put_links size_links
length-put_links e [] h = omega arith
length-put_links e (lk ∷ lks) h =
    let e1 = msg e 13 (size_link lk) in
    omega (
      arith,
      length-msg e 13 (omega arith) (size_link lk),
      length-put_link e1 lk h.0.0 h.0.1,
      length-put_links (put_link e1 lk) lks h.1,
    )

length-put_status_field :
    (e : Bytes) (st : Status) → length (put_status_field e st) ≡ length e + size_status_field st
unfolding put_status_field size_status_field
length-put_status_field e st = ground (
  arith,
  length-msg e 15 (omega arith) (size_status st),
  length-put_status (msg e 15 (size_status st)) st,
)

-- putSpan writes as many bytes as sizeSpan says, less two for each empty byte string among the
-- attributes of the span, its events and its links; ids have the sizes of Go's arrays.
pub length-put_span :
    (e : Bytes) (sp : Span)
    → HasIdSizes sp
    → length (put_span e sp) + 2 * empty_bytes_span sp ≡ length e + size_span sp
unfolding put_span size_span empty_bytes_span
length-put_span e sp h =
    let e1 = put_id e 1 sp.trace_id in
    let e2 = put_id e1 2 sp.span_id in
    let e3 = str e2 3 sp.trace_state in
    let e4 = put_id e3 4 sp.parent_span_id in
    let e5 = str e4 5 sp.name in
    let e6 = varint_f e5 6 (i64_wire sp.kind) in
    let e7 = fixed64_f e6 7 sp.start_timestamp in
    let e8 = fixed64_f e7 8 sp.end_timestamp in
    let e9 = put_attrs e8 9 sp.attributes in
    let e10 = varint_f e9 10 sp.dropped_attributes in
    let e11 = put_events e10 sp.events in
    let e12 = varint_f e11 12 sp.dropped_events in
    let e13 = put_links e12 sp.links in
    let e14 = varint_f e13 14 sp.dropped_links in
    let e15 = put_status_field e14 sp.status in
    omega (
      arith,
      length-put_id e 1 16 sp.trace_id (omega arith) (omega arith) h.0,
      length-put_id e1 2 8 sp.span_id (omega arith) (omega arith) h.1,
      length-str e2 3 (omega arith) sp.trace_state,
      length-put_id e3 4 8 sp.parent_span_id (omega arith) (omega arith) h.2,
      length-str e4 5 (omega arith) sp.name,
      length-varint_f e5 6 (omega arith) (i64_wire sp.kind),
      length-fixed64_f e6 7 (omega arith) sp.start_timestamp,
      length-fixed64_f e7 8 (omega arith) sp.end_timestamp,
      length-put_attrs e8 9 sp.attributes (omega arith),
      length-varint_f e9 10 (omega arith) sp.dropped_attributes,
      length-put_events e10 sp.events,
      length-varint_f e11 12 (omega arith) sp.dropped_events,
      length-put_links e12 sp.links h.3,
      length-varint_f e13 14 (omega arith) sp.dropped_links,
      length-put_status_field e14 sp.status,
      length-fixed32_f e15 16 (omega arith) sp.flags,
    )

pub length-put_resource :
    (e : Bytes) (res : Resource)
    → length (put_resource e res) + 2 * empty_bytes_pairs res.attributes
      ≡ length e + size_resource res
unfolding put_resource size_resource
length-put_resource e res = omega (
  arith,
  length-put_attrs e 1 res.attributes (omega arith),
  length-varint_f (put_attrs e 1 res.attributes) 2 (omega arith) res.dropped_attributes,
)

pub length-put_scope :
    (e : Bytes) (sc : Scope)
    → length (put_scope e sc) + 2 * empty_bytes_pairs sc.attributes ≡ length e + size_scope sc
unfolding put_scope size_scope
length-put_scope e sc =
    let e1 = str e 1 sc.name in
    let e2 = str e1 2 sc.version in
    omega (
      arith,
      length-str e 1 (omega arith) sc.name,
      length-str e1 2 (omega arith) sc.version,
      length-put_attrs e2 3 sc.attributes (omega arith),
      length-varint_f (put_attrs e2 3 sc.attributes) 4 (omega arith) sc.dropped_attributes,
    )
