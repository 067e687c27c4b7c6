-- ===== src/Fragmenter/Span.antt =====
-- internal/fragmenter/spanenc.go: spans, resources and scopes. A pdata object is what its getters
-- return; `uint64(...)` of a uint32 count keeps its value.
use retrosampler.Prelude.{ℕ, ◌+◌, Bool, true, false, List, [], ◌∷◌, ltb, ◌==◌, if◌then◌else◌}
use retrosampler.Prelude.Bytes.{Bytes}
use retrosampler.Prelude.Ints.{ℤ}
use retrosampler.Fragmenter.Proto.{i64_wire, bytes_f, str, varint_f, fixed64_f, fixed32_f, msg}
use retrosampler.Fragmenter.Proto.{
  size_len, size_str, size_varint_f, size_fixed64_f, size_fixed32_f,
}
use retrosampler.Fragmenter.Value.{Pairs, size_attrs, put_attrs}

pub record Status : Type 0 where
  pub message : Bytes
  pub code : ℤ

pub record Event : Type 0 where
  pub timestamp : ℕ
  pub name : Bytes
  pub attributes : Pairs
  pub dropped_attributes : ℕ

pub record Link : Type 0 where
  pub trace_id : Bytes
  pub span_id : Bytes
  pub trace_state : Bytes
  pub attributes : Pairs
  pub dropped_attributes : ℕ
  pub flags : ℕ

pub record Span : Type 0 where
  pub trace_id : Bytes
  pub span_id : Bytes
  pub parent_span_id : Bytes
  pub trace_state : Bytes
  pub name : Bytes
  pub kind : ℤ
  pub start_timestamp : ℕ
  pub end_timestamp : ℕ
  pub attributes : Pairs
  pub dropped_attributes : ℕ
  pub events : List Event
  pub dropped_events : ℕ
  pub links : List Link
  pub dropped_links : ℕ
  pub status : Status
  pub flags : ℕ

pub record Resource : Type 0 where
  pub attributes : Pairs
  pub dropped_attributes : ℕ

pub record Scope : Type 0 where
  pub name : Bytes
  pub version : Bytes
  pub attributes : Pairs
  pub dropped_attributes : ℕ

-- IsEmpty of a TraceID and of a SpanID: all bytes are zero.
unfoldable pub is_empty_id : Bytes → Bool
is_empty_id [] = true
is_empty_id (b ∷ bs) = if b == 0 then is_empty_id bs else false

-- `if !id.IsEmpty() { n += sizeLen(field, n) }` and `if !id.IsEmpty() { e.bytesF(field, id[:]) }`
unfoldable pub size_id : ℕ → ℕ → Bytes → ℕ
size_id field n id = if is_empty_id id then 0 else size_len field n

unfoldable pub put_id : Bytes → ℕ → Bytes → Bytes
put_id e field id = if is_empty_id id then e else bytes_f e field id

unfoldable pub size_status : Status → ℕ
size_status st = size_str 2 st.message + size_varint_f 3 (i64_wire st.code)

unfoldable pub put_status : Bytes → Status → Bytes
put_status e st = varint_f (str e 2 st.message) 3 (i64_wire st.code)

unfoldable pub size_event : Event → ℕ
size_event ev =
    size_fixed64_f 1 ev.timestamp
    + size_str 2 ev.name
    + size_attrs 3 ev.attributes
    + size_varint_f 4 ev.dropped_attributes

unfoldable pub put_event : Bytes → Event → Bytes
put_event e ev =
    let e1 = fixed64_f e 1 ev.timestamp in
    let e2 = str e1 2 ev.name in
    let e3 = put_attrs e2 3 ev.attributes in varint_f e3 4 ev.dropped_attributes

unfoldable pub size_link : Link → ℕ
size_link lk =
    size_id 1 16 lk.trace_id
    + size_id 2 8 lk.span_id
    + size_str 3 lk.trace_state
    + size_attrs 4 lk.attributes
    + size_varint_f 5 lk.dropped_attributes
    + size_fixed32_f 6 lk.flags

unfoldable pub put_link : Bytes → Link → Bytes
put_link e lk =
    let e1 = put_id e 1 lk.trace_id in
    let e2 = put_id e1 2 lk.span_id in
    let e3 = str e2 3 lk.trace_state in
    let e4 = put_attrs e3 4 lk.attributes in
    let e5 = varint_f e4 5 lk.dropped_attributes in fixed32_f e5 6 lk.flags

unfoldable pub size_events : List Event → ℕ
size_events [] = 0
size_events (ev ∷ evs) = size_len 11 (size_event ev) + size_events evs

unfoldable pub put_events : Bytes → List Event → Bytes
put_events e [] = e
put_events e (ev ∷ evs) = put_events (put_event (msg e 11 (size_event ev)) ev) evs

unfoldable pub size_links : List Link → ℕ
size_links [] = 0
size_links (lk ∷ lks) = size_len 13 (size_link lk) + size_links lks

unfoldable pub put_links : Bytes → List Link → Bytes
put_links e [] = e
put_links e (lk ∷ lks) = put_links (put_link (msg e 13 (size_link lk)) lk) lks

-- `if s := sizeStatus(...); s > 0`
unfoldable pub size_status_field : Status → ℕ
size_status_field st = if ltb 0 (size_status st) then size_len 15 (size_status st) else 0

unfoldable pub put_status_field : Bytes → Status → Bytes
put_status_field e st =
    if ltb 0 (size_status st) then put_status (msg e 15 (size_status st)) st else e

unfoldable pub size_span : Span → ℕ
size_span sp =
    size_id 1 16 sp.trace_id
    + size_id 2 8 sp.span_id
    + size_str 3 sp.trace_state
    + size_id 4 8 sp.parent_span_id
    + size_str 5 sp.name
    + size_varint_f 6 (i64_wire sp.kind)
    + size_fixed64_f 7 sp.start_timestamp
    + size_fixed64_f 8 sp.end_timestamp
    + size_attrs 9 sp.attributes
    + size_varint_f 10 sp.dropped_attributes
    + size_events sp.events
    + size_varint_f 12 sp.dropped_events
    + size_links sp.links
    + size_varint_f 14 sp.dropped_links
    + size_status_field sp.status
    + size_fixed32_f 16 sp.flags

unfoldable pub put_span : Bytes → Span → Bytes
put_span e sp =
    let e1 = put_id e 1 sp.trace_id in
    let e2 = put_id e1 2 sp.span_id in
    let e3 = str e2 3 sp.trace_state in
    let e4 = put_id e3 4 sp.parent_span_id in
    let e5 = str e4 5 sp.name in
    let e6 = varint_f e5 6 (i64_wire sp.kind) in
    let e7 = fixed64_f e6 7 sp.start_timestamp in
    let e8 = fixed64_f e7 8 sp.end_timestamp in
    let e9 = put_attrs e8 9 sp.attributes in
    let e10 = varint_f e9 10 sp.dropped_attributes in
    let e11 = put_events e10 sp.events in
    let e12 = varint_f e11 12 sp.dropped_events in
    let e13 = put_links e12 sp.links in
    let e14 = varint_f e13 14 sp.dropped_links in
    let e15 = put_status_field e14 sp.status in fixed32_f e15 16 sp.flags

unfoldable pub size_resource : Resource → ℕ
size_resource res = size_attrs 1 res.attributes + size_varint_f 2 res.dropped_attributes

unfoldable pub put_resource : Bytes → Resource → Bytes
put_resource e res = varint_f (put_attrs e 1 res.attributes) 2 res.dropped_attributes

unfoldable pub size_scope : Scope → ℕ
size_scope sc =
    size_str 1 sc.name
    + size_str 2 sc.version
    + size_attrs 3 sc.attributes
    + size_varint_f 4 sc.dropped_attributes

unfoldable pub put_scope : Bytes → Scope → Bytes
put_scope e sc =
    let e1 = str e 1 sc.name in
    let e2 = str e1 2 sc.version in
    let e3 = put_attrs e2 3 sc.attributes in varint_f e3 4 sc.dropped_attributes
