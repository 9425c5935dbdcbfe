-- ===== src/Log/Speedscope/Frames.antt =====
-- The shared frames of the speedscope data: each frame of the log has an index there, under which
-- its own array stands.
use mediawiki_php_excimer.Prelude.{
  ℕ, ◌<◌, ◌≡◌, refl, sym, ap, ◌∙◌, inl, inr, Option, none, some, List, [], ◌∷◌, ◌++◌, arith, length,
  length-append, get_elem?, get_elem?-append, get_elem?-append_last, get_elem?-append_cases,
  Bool-cases, Option-cases,
}
use mathlib.Core.Path.{subst}
use mathlib.Core.List.{append-nil, append_assoc}
use mediawiki_php_excimer.Bytes.{Bytes, bytes_eq, bytes_eq_refl, bytes_eq_iff}
use mediawiki_php_excimer.Run.{ok}
use mediawiki_php_excimer.Zend.{HashApi, str, key_eq, find-add}
use mediawiki_php_excimer.Log.{Frame}
use mediawiki_php_excimer.Log.Name.Plain.{HasFile}
use mediawiki_php_excimer.Log.Valid.{All}
use mediawiki_php_excimer.Log.Trace.{Zval}
use mediawiki_php_excimer.Log.Speedscope.{Shared, new_shared, share_frame, share_frames}
use mediawiki_php_excimer.Log.Speedscope.Prints.{Prints, Prints-total, Prints-unique}

module _ ⦃Z : HashApi⦄ where
  -- Where a frame's array stands.
  pub record Resolved (s : Shared) (i : ℕ) (f : Frame) : Type 0 where
    pub key : Bytes
    pub index : ℕ
    pub array : Z.Table Zval
    pub prints : Prints f key array
    pub place : get_elem? s.frame_indexes i ≡ some index
    pub known : Z.find s.indexes_by_key (str key) ≡ some index
    pub there : get_elem? s.frames index ≡ some array

  -- What the shared frames say of the frames so far, the one at index 0 included.
  pub record Maps (done : List Frame) (s : Shared) : Type 0 where
    pub size : length s.frame_indexes ≡ length done
    pub resolved : (i : ℕ) (f : Frame) → 0 < i → get_elem? done i ≡ some f → Resolved s i f
    pub keyed :
        (key : Bytes) (index : ℕ)
        → Z.find s.indexes_by_key (str key) ≡ some index
        → (f : Frame) × (array : Z.Table Zval) × Prints f key array
          × (get_elem? s.frames index ≡ some array)

  -- Nothing that was written changes.
  record Continues (s s' : Shared) : Type 0 where
    indexes :
        (i index : ℕ)
        → get_elem? s.frame_indexes i ≡ some index
        → get_elem? s'.frame_indexes i ≡ some index
    keys :
        (key : Bytes) (index : ℕ)
        → Z.find s.indexes_by_key (str key) ≡ some index
        → Z.find s'.indexes_by_key (str key) ≡ some index
    frames :
        (index : ℕ) (array : Z.Table Zval)
        → get_elem? s.frames index ≡ some array
        → get_elem? s'.frames index ≡ some array

  Resolved-Continues :
      (s s' : Shared) (i : ℕ) (f : Frame) → Continues s s' → Resolved s i f → Resolved s' i f
  Resolved-Continues s s' i f c r = record {
    key = r.key;
    index = r.index;
    array = r.array;
    prints = r.prints;
    place = c.indexes i r.index r.place;
    known = c.keys r.key r.index r.known;
    there = c.frames r.index r.array r.there;
  }

  Resolved-append :
      (done : List Frame) (s s' : Shared) (f : Frame)
      → Maps done s
      → Continues s s'
      → Resolved s' (length done) f
      → (i : ℕ) (g : Frame) → 0 < i
      → get_elem? (done ++ f ∷ []) i ≡ some g
      → Resolved s' i g
  Resolved-append done s s' f m c r i g positive found =
      elim (get_elem?-append_cases done f i g found) [
        | inl old ↦ Resolved-Continues s s' i g c (m.resolved i g positive old)
        | inr (last, same) ↦
            subst (λ j. Resolved s' j g) (sym last)
              (subst (λ h. Resolved s' (length done) h) (sym same) r)
      ]

  last_index :
      (done : List Frame) (s : Shared) (index : ℕ)
      → Maps done s
      → get_elem? (s.frame_indexes ++ index ∷ []) (length done) ≡ some index
  last_index done s index m =
      subst (λ n. get_elem? (s.frame_indexes ++ index ∷ []) n ≡ some index) m.size
        (get_elem?-append_last s.frame_indexes index)

  -- A key stays when another is added.
  find-kept :
      (s : Shared) (key k : Bytes) (j index : ℕ)
      → Z.find s.indexes_by_key (str key) ≡ none
      → Z.find s.indexes_by_key (str k) ≡ some j
      → Z.find (Z.add s.indexes_by_key (str key) index) (str k) ≡ some j
  unfolding key_eq
  find-kept s key k j index e h =
      let added = find-add s.indexes_by_key (str key) (str k) index e in
      elim (Bool-cases (bytes_eq key k)) [
        | inl same ↦
            let equal : key ≡ k = (bytes_eq_iff key k).0 same in
            let e' : Z.find s.indexes_by_key (str k) ≡ none = rw equal at e in absurd (cc)
        | inr other ↦ rw other at added ∙ h
      ]

  -- The frame has a key that was seen.
  reuse-Maps :
      (done : List Frame) (s : Shared) (f : Frame) (key : Bytes) (array : Z.Table Zval) (index : ℕ)
      → Maps done s
      → Prints f key array
      → Z.find s.indexes_by_key (str key) ≡ some index
      → Maps (done ++ f ∷ []) (record s { frame_indexes = s.frame_indexes ++ index ∷ [] })
  reuse-Maps done s f key array index m p e =
      let s' : Shared = record s { frame_indexes = s.frame_indexes ++ index ∷ [] } in
      let (g, array', q, stored) = m.keyed key index e in
      let same : array' ≡ array = Prints-unique g f key array' array q p in
      let c : Continues s s' = record {
        indexes = λ i k h. get_elem?-append s.frame_indexes (index ∷ []) i k h;
        keys = λ k j h. h;
        frames = λ j a h. h;
      } in
      record {
        size = omega (
          arith,
          length-append s.frame_indexes (index ∷ []),
          length-append done (f ∷ []),
          m.size,
        );
        resolved = Resolved-append done s s' f m c (record {
          key = key;
          index = index;
          array = array;
          prints = p;
          place = last_index done s index m;
          known = e;
          there = stored ∙ ap {B = Option (Z.Table Zval)} some same;
        });
        keyed = m.keyed;
      }

  -- The frame has a new key, and goes to the end.
  new_shared-Maps :
      (done : List Frame) (s : Shared) (f : Frame) (key : Bytes) (array : Z.Table Zval)
      → Maps done s
      → Prints f key array
      → Z.find s.indexes_by_key (str key) ≡ none
      → (s' : Shared) × (new_shared key f s ≡ ok s') × Maps (done ++ f ∷ []) s'
  unfolding new_shared key_eq
  new_shared-Maps done s f key array m p e =
      let index = length s.frames in
      let s' : Shared = record {
        frames = s.frames ++ array ∷ [];
        indexes_by_key = Z.add s.indexes_by_key (str key) index;
        frame_indexes = s.frame_indexes ++ index ∷ [];
      } in
      let added = λ (k : Bytes). find-add s.indexes_by_key (str key) (str k) index e in
      let c : Continues s s' = record {
        indexes = λ i k h. get_elem?-append s.frame_indexes (index ∷ []) i k h;
        keys = λ k j h. find-kept s key k j index e h;
        frames = λ j a h. get_elem?-append s.frames (array ∷ []) j a h;
      } in
      (
        s',
        rw p.has_array,
        record {
          size = omega (
            arith,
            length-append s.frame_indexes (index ∷ []),
            length-append done (f ∷ []),
            m.size,
          );
          resolved = Resolved-append done s s' f m c (record {
            key = key;
            index = index;
            array = array;
            prints = p;
            place = last_index done s index m;
            known = rw (bytes_eq_refl key) at (added key);
            there = get_elem?-append_last s.frames array;
          });
          keyed = λ k j h. elim (Bool-cases (bytes_eq key k)) [
            | inl same ↦
                let equal : key ≡ k = (bytes_eq_iff key k).0 same in
                let now : some j ≡ some index = sym h ∙ rw same at (added k) in
                let last : index ≡ j = cc in
                (
                  f,
                  array,
                  subst (λ x. Prints f x array) equal p,
                  subst (λ x. get_elem? (s.frames ++ array ∷ []) x ≡ some array) last
                      (get_elem?-append_last s.frames array),
                )
            | inr other ↦
                let before : Z.find s.indexes_by_key (str k) ≡ some j =
                  sym (rw other at (added k)) ∙ h in
                let (g, a, q, stored) = m.keyed k j before in
                (g, a, q, get_elem?-append s.frames (array ∷ []) j a stored)
          ];
        },
      )

  share_frame-Maps :
      (done : List Frame) (s : Shared) (f : Frame)
      → HasFile f
      → Maps done s
      → (s' : Shared) × (share_frame f s ≡ ok s') × Maps (done ++ f ∷ []) s'
  unfolding share_frame
  share_frame-Maps done s f file m =
      let (key, array, p) = Prints-total f file in
      elim (Option-cases (Z.find s.indexes_by_key (str key))) [
        | inl e ↦
            let (s', shared, m') = new_shared-Maps done s f key array m p e in
            (s', rw (p.has_key, e, share_frame) shared, m')
        | inr (index, e) ↦ (
          record s { frame_indexes = s.frame_indexes ++ index ∷ [] },
          rw (p.has_key, e, share_frame),
          reuse-Maps done s f key array index m p e,
        )
      ]

  pub share_frames-Maps :
      (done frames : List Frame) (s : Shared)
      → All HasFile frames
      → Maps done s
      → (s' : Shared) × (share_frames frames s ≡ ok s') × Maps (done ++ frames) s'
  unfolding share_frames
  share_frames-Maps done [] s files m = (s, refl, subst (λ fs. Maps fs s) (sym (append-nil done)) m)
  share_frames-Maps done (f ∷ frames) s files m =
      let (s1, shared, m1) = share_frame-Maps done s f files.0 m in
      let (s2, rest, m2) = share_frames-Maps (done ++ f ∷ []) frames s1 files.1 m1 in
      (s2, rw shared rest, subst (λ fs. Maps fs s2) (append_assoc done (f ∷ []) frames) m2)
