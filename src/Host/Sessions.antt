-- ===== src/Host/Sessions.antt =====
-- An upload that goes on in chunks, and what the cleanup leaves.
use rch_mac.Base.{
  ℕ, ◌+◌, ◌-◌, ◌^◌, ◌<◌, leb, false, not, Option, none, some, if◌then◌else◌, Text, text_eq, List,
  [], ◌∷◌, IsDict, get, insert, get-insert, get-retain, ◌≡◌, refl, ◌∙◌, ap, arith, Bool-cases,
  Option-cases, inl, inr, subst, get-insert_self, ◌⊎◌,
}
use rch_mac.Gc.Sweep.{total}
use rch_mac.Host.Uploads.{
  UploadSession, new, is_complete, remaining, advance, UploadSessionStore, get_or_create, update,
  cleanup_stale,
}

-- One chunk: the session is looked up or made, advanced, and put back.
abbrev pub send_chunk : Text → Text → ℕ → ℕ → UploadSessionStore → UploadSessionStore
send_chunk id sha len bytes store =
    let found = get_or_create id sha len store in update (advance bytes found.1) found.0

abbrev pub send_chunks : Text → Text → ℕ → List ℕ → UploadSessionStore → UploadSessionStore
send_chunks id sha len [] store = store
send_chunks id sha len (n ∷ ns) store = send_chunks id sha len ns (send_chunk id sha len n store)

abbrev pub all_bytes : List ℕ → ℕ
all_bytes ns = total (λ n. n) ns

-- A stored session that has come as far as an offset.
abbrev pub At : Text → Text → ℕ → ℕ → UploadSessionStore → Type 0
At id sha len offset store =
    (s : UploadSession) × (get id store ≡ some s)
    × (s.upload_id ≡ id)
    × (s.source_sha256 ≡ sha)
    × (s.content_length ≡ len)
    × (s.offset ≡ offset)

module _ (id sha : Text) (len : ℕ) where
  put_back :
      (n offset : ℕ) (s : UploadSession) (store base : UploadSessionStore)
      → offset + n < 2 ^ 64
      → send_chunk id sha len n store ≡ insert s.upload_id (advance n s) base
      → s.upload_id ≡ id
      → s.source_sha256 ≡ sha
      → s.content_length ≡ len
      → s.offset ≡ offset
      → At id sha len (offset + n) (send_chunk id sha len n store)
  unfolding advance
  put_back n offset s store base small e i c l o = (
    advance n s,
    ap (get id) e
        ∙ ap (λ k. get id (insert k (advance n s) base)) i
        ∙ get-insert_self id (advance n s) base,
    i,
    c,
    l,
    ground arith,
  )

  abbrev found_in : UploadSessionStore → Option UploadSession → UploadSessionStore × UploadSession
  found_in store o = elim o [
    | some s ↦ (store, s)
    | none ↦ (insert id (new id sha len) store, new id sha len)
  ]

  send_found :
      (n : ℕ) (store : UploadSessionStore) (o : Option UploadSession)
      → get id store ≡ o
      → let f = found_in store o in
        send_chunk id sha len n store ≡ insert f.1.upload_id (advance n f.1) f.0
  unfolding get_or_create update advance
  send_found n store o h =
      ap (λ o. let f = found_in store o in insert f.1.upload_id (advance n f.1) f.0) h

  send_chunk-At :
      (n offset : ℕ) (store : UploadSessionStore)
      → offset + n < 2 ^ 64
      → At id sha len offset store
      → At id sha len (offset + n) (send_chunk id sha len n store)
  unfolding get_or_create update
  send_chunk-At n offset store small (s, h, i, c, l, o) =
      put_back n offset s store store small (send_found n store (some s) h) i c l o

  first_chunk-At :
      (n : ℕ) (store : UploadSessionStore)
      → n < 2 ^ 64
      → get id store ≡ none
      → At id sha len n (send_chunk id sha len n store)
  unfolding get_or_create update
  first_chunk-At n store small h =
      let s = new id sha len in
      let e : 0 + n ≡ n = omega arith in
      subst (λ o. At id sha len o (send_chunk id sha len n store)) e
        (put_back n 0 s store (insert id s store) (omega arith) (send_found n store none h) refl
          refl refl refl)

  send_chunk-other :
      (n offset : ℕ) (store : UploadSessionStore) (j : Text)
      → text_eq id j ≡ false
      → (get id store ≡ none) ⊎ At id sha len offset store
      → get j (send_chunk id sha len n store) ≡ get j store
  unfolding get_or_create update advance
  send_chunk-other n offset store j d (inl h) =
      let s = new id sha len in
      let a = get-insert id j s store in
      let b = get-insert id j (advance n s) (insert id s store) in ground arith
  send_chunk-other n offset store j d (inr (s, h, i, c, l, o)) =
      let a = get-insert s.upload_id j (advance n s) store in ground arith

  send_chunks-At :
      (ns : List ℕ) (offset : ℕ) (store : UploadSessionStore)
      → offset + all_bytes ns < 2 ^ 64
      → At id sha len offset store
      → At id sha len (offset + all_bytes ns) (send_chunks id sha len ns store)
        × ((j : Text)
            → text_eq id j ≡ false
            → get j (send_chunks id sha len ns store) ≡ get j store)
  send_chunks-At [] offset store small h =
      let e : offset ≡ offset + 0 = omega arith in
      (subst (λ o. At id sha len o store) e h, λ j d. refl)
  send_chunks-At (n ∷ ns) offset store small h =
      let next = send_chunk-At n offset store (omega arith) h in
      let (rest, others) =
        send_chunks-At ns (offset + n) (send_chunk id sha len n store) (omega arith) next in
      let e : offset + n + all_bytes ns ≡ offset + (n + all_bytes ns) = omega arith in
      (
        subst (λ o. At id sha len o (send_chunks id sha len (n ∷ ns) store)) e rest,
        λ j d. others j d ∙ send_chunk-other n offset store j d (inr h),
      )

  -- An upload that the store does not know yet, sent in chunks of less than 2^64 bytes in all: the
  -- store holds a session with the source and the length that were asked for, whose offset is the sum
  -- of the chunks; it is complete exactly when the chunks reach the length, and what remains is what
  -- they lack of it. No other session is touched.
  pub send_chunks-offset :
      (n : ℕ) (ns : List ℕ) (store : UploadSessionStore)
      → get id store ≡ none
      → all_bytes (n ∷ ns) < 2 ^ 64
      → let after = send_chunks id sha len (n ∷ ns) store in
        ((s : UploadSession) × (get id after ≡ some s)
          × (s.source_sha256 ≡ sha)
          × (s.offset ≡ all_bytes (n ∷ ns))
          × (is_complete s ≡ leb len (all_bytes (n ∷ ns)))
          × (remaining s ≡ len - all_bytes (n ∷ ns)))
        × ((j : Text) → text_eq id j ≡ false → get j after ≡ get j store)
  unfolding is_complete remaining
  send_chunks-offset n ns store h small =
      let first = first_chunk-At n store (omega arith) h in
      let ((s, g, i, c, l, o), others) =
        send_chunks-At ns n (send_chunk id sha len n store) (omega arith) first in
      (
        (s, g, c, o, ground arith, ground arith),
        λ j d. others j d ∙ send_chunk-other n 0 store j d (inl h),
      )

-- The cleanup removes the sessions that are complete and no other, whatever age it is given.
pub cleanup_stale_iff :
    (max_age : ℕ) (store : UploadSessionStore) (id : Text)
    → IsDict store
    → get id (cleanup_stale max_age store)
      ≡ elim (get id store) [ none ↦ none | some s ↦ if is_complete s then none else some s ]
unfolding cleanup_stale
cleanup_stale_iff max_age store id d =
    let r = get-retain (λ s. not (is_complete s)) id store d in
    elim (Option-cases (get id store)) [
      | inl h ↦ ground arith
      | inr (s, h) ↦ elim (Bool-cases (is_complete s)) [
        | inl e ↦ ground arith
        | inr e ↦ ground arith
      ]
    ]
