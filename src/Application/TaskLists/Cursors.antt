-- ===== src/Application/TaskLists/Cursors.antt =====
-- The cursors of `ListTasks` in internal/application/task_service.go and the queries they lead to.
use taskpulse.Prelude.{
  ℕ, zero, suc, ◌+◌, ◌≤◌, String, true, false, ◌||◌, Option, none, some, [], ◌∷◌, ℤ, pos, negsuc,
  is_nonpos, magnitude, ltb, is_empty, text_eq, trim_space, ◌≡◌, refl, ap, arith, inl, inr,
  Bool-cases,
}
use taskpulse.Result.{Result, ok, err, Result-cases}
use taskpulse.Event.{text, time}
use taskpulse.Store.Query.{ListTasksOptions, TaskListItem, validate}
use taskpulse.Store.Query.Pages.{from}
use taskpulse.Application.Codec.{Codec, TaskListCursor}
use taskpulse.Application.TaskLists.{
  ListTasksInput, limit_of, encode_task_list_cursor, decode_task_list_cursor, query_of, validated,
  with_cursor, base_query, at_cursor,
}

-- encoding/json and encoding/base64 carry this cursor: it is marshaled, its encoding is not empty,
-- and decoding gives it back.
pub record IsCarried (codec : Codec) (at : ℕ) (id : String) : Type 0 where
  pub bytes : String
  pub marshaled : codec.json.marshal (("created_at", time at) ∷ ("id", text id) ∷ []) ≡ some bytes
  pub encoded : is_empty (codec.encode_base64 bytes) ≡ false
  pub decoded : codec.decode_base64 (codec.encode_base64 bytes) ≡ some bytes
  pub unmarshaled : codec.unmarshal_cursor bytes ≡ some (record { created_at = at; id = id })

-- What a request that is accepted asks of the store.
pub record IsQuery (i : ListTasksInput) (o : ListTasksOptions) : Type 0 where
  pub trimmed : text_eq (trim_space i.workflow) i.workflow ≡ true
  pub ranged : (is_nonpos (limit_of i.limit) || ltb 100 (magnitude (limit_of i.limit))) ≡ false
  pub same_workflow : o.workflow ≡ i.workflow
  pub same_status : o.status ≡ i.status
  pub same_limit : o.limit ≡ pos (magnitude (limit_of i.limit) + 1)
  pub valid : validate o ≡ ok tt

validated_lem :
    (r : Result ListTasksOptions) (o : ListTasksOptions)
    → validated r ≡ ok o
    → (r ≡ ok o) × (validate o ≡ ok tt)
validated_lem (err e) o h = cc
validated_lem (ok p) o h = elim (Result-cases (validate p)) [
  | inl (u, e) ↦ (ground (arith, e), ground (arith, e))
  | inr (x, e) ↦ cc (e, h)
]

with_cursor_lem :
    (c : Option TaskListCursor) (p o : ListTasksOptions)
    → with_cursor c p ≡ ok o
    → (o.workflow ≡ p.workflow) × (o.status ≡ p.status) × (o.limit ≡ p.limit)
with_cursor_lem none p o h = cc
with_cursor_lem (some c) p o h = (ground arith, ground arith, ground arith)

at_cursor_lem :
    (codec : Codec) (i : ListTasksInput) (o : ListTasksOptions)
    → at_cursor codec i ≡ ok o
    → (o.workflow ≡ i.workflow)
      × (o.status ≡ i.status)
      × (o.limit ≡ pos (magnitude (limit_of i.limit) + 1))
unfolding at_cursor
at_cursor_lem codec i o h = elim (Bool-cases (is_empty i.cursor)) [
  | inl c ↦ (ground arith, ground arith, ground arith)
  | inr c ↦ with_cursor_lem (decode_task_list_cursor codec i.cursor) (base_query i) o (rw c at h)
]

pub query_of-IsQuery :
    (codec : Codec) (i : ListTasksInput) (o : ListTasksOptions)
    → query_of codec i ≡ ok o
    → IsQuery i o
unfolding query_of
query_of-IsQuery codec i o h = elim (Bool-cases (text_eq (trim_space i.workflow) i.workflow)) [
  | inr a ↦ cc (rw a at h)
  | inl a ↦
      elim (Bool-cases (is_nonpos (limit_of i.limit) || ltb 100 (magnitude (limit_of i.limit)))) [
        | inl b ↦ cc (rw (a, b) at h)
        | inr b ↦
            let (same, valid) = validated_lem (at_cursor codec i) o (rw (a, b) at h) in
            let (w, st, l) = at_cursor_lem codec i o same in
            record {
              trimmed = a;
              ranged = b;
              same_workflow = w;
              same_status = st;
              same_limit = l;
              valid = valid;
            }
      ]
]

module _ (codec : Codec) (at : ℕ) (id : String) (h : IsCarried codec at id) where
  decode-encode :
      is_empty id ≡ false
      → 1 ≤ at
      → decode_task_list_cursor codec
          (encode_task_list_cursor codec (record { created_at = at; id = id }))
        ≡ some (record { created_at = at; id = id })
  unfolding decode_task_list_cursor encode_task_list_cursor
  decode-encode named dated = ground (arith, h.marshaled, h.decoded, h.unmarshaled)

  encoded_cursor :
      is_empty (encode_task_list_cursor codec (record { created_at = at; id = id })) ≡ false
  unfolding encode_task_list_cursor
  encoded_cursor = ground (arith, h.marshaled, h.encoded)

validate-from :
    (c : TaskListItem) (o : ListTasksOptions)
    → is_empty c.id ≡ false
    → validate o ≡ ok tt
    → validate (from c o) ≡ ok tt
unfolding validate
validate-from c o named h = ground (arith, named, h)

query_of-at :
    (codec : Codec) (i : ListTasksInput) (o p : ListTasksOptions)
    → query_of codec i ≡ ok o
    → (cursor : String) → at_cursor codec (record i { cursor = cursor }) ≡ ok p
    → validate p ≡ ok tt
    → query_of codec (record i { cursor = cursor }) ≡ ok p
unfolding query_of
query_of-at codec i o p h cursor at valid =
    let q = query_of-IsQuery codec i o h in
    rw (q.trimmed, q.ranged, at) (rw (valid, validated) refl)

module _ (codec : Codec) (i : ListTasksInput) (o : ListTasksOptions)
    (asked : query_of codec i ≡ ok o) where
  pub query_limit :
      (magnitude o.limit ≡ magnitude (limit_of i.limit) + 1) × (1 ≤ magnitude (limit_of i.limit))
  query_limit =
      let q = query_of-IsQuery codec i o asked in
      (ap magnitude q.same_limit, positive (limit_of i.limit) q.ranged)
    where
      positive : (n : ℤ) → (is_nonpos n || ltb 100 (magnitude n)) ≡ false → 1 ≤ magnitude n
      positive (pos zero) h = cc
      positive (pos (suc n)) h = omega arith
      positive (negsuc n) h = cc

  -- The request with the cursor at this task asks for what comes behind it.
  pub query_from :
      (c : TaskListItem)
      → IsCarried codec c.created_at c.id
      → is_empty c.id ≡ false
      → 1 ≤ c.created_at
      → query_of codec (record i {
        cursor = encode_task_list_cursor codec (record { created_at = c.created_at; id = c.id });
      })
        ≡ ok (from c o)
  unfolding at_cursor
  query_from c h named dated =
      let q = query_of-IsQuery codec i o asked in
      let same : record (base_query i) { before_created_at = some c.created_at; before_id = c.id }
          ≡ from c o =
        cc (q.same_workflow, q.same_status, q.same_limit) in
      query_of-at codec i o (from c o) asked _
        (rw
          (
            encoded_cursor codec c.created_at c.id h,
            decode-encode codec c.created_at c.id h named dated,
          )
          (ap ok same))
        (validate-from c o named q.valid)
