-- ===== src/Services/Documents/Landing.antt =====
-- The committed rows that an upload may leave, whatever fails.
use ai_agent_hub.Common.{
  ℕ, ◌≡◌, ◌⊎◌, refl, sym, ap, subst, ◌∙◌, Bool, true, false, Option, none, some, List, nat_eq, inl,
  inr,
}
use ai_agent_hub.Common.Exec.{continue_with, ◌>>=◌}
use ai_agent_hub.Common.Result.{Result, ok, err}
use ai_agent_hub.Services.Ingestion.{Document, Rows, Session, is_owned}
use ai_agent_hub.Services.Documents.{
  Failure, app_error, other_error, DocumentBackends, mark_uploaded, mark_failed, outside, commit,
  rollback, on_rows, owned_document, change_row, add_row, store_object, finish_upload,
  after_marking, mark_row, recover_upload, handle, finished, stored,
}
use ai_agent_hub.Services.Documents.NewRow.{changed}

module _ {X : Type 0} (b : DocumentBackends X) where
  -- A commit that succeeds makes the working rows the committed ones; one that fails changes no rows.
  abbrev pub Committed : Session X → Result Failure (Unit {0}) × Session X → Type 0
  Committed s p =
      ((p.0 ≡ ok tt) × (p.1.committed ≡ s.working) × (p.1.working ≡ s.working))
      ⊎ ((e : Failure) × (p.0 ≡ err e) × (p.1.committed ≡ s.committed))

  pub commit_cases : (s : Session X) → Committed s (commit b s)
  unfolding commit
  commit_cases s = by_end (b.try_commit s.external)
    where
      by_end :
          (p : Result Failure (Unit {0}) × X)
          → Committed s (
              continue_with {B = Unit {0}}
                (λ _ s. (ok tt, record s { committed = s.working }))
                (p.0, record s { external = p.1 }))
      by_end (ok tt, x) = inl (refl, refl, refl)
      by_end (err e, x) = inr (e, refl, refl)

  module _ (user_id knowledge_base_id : ℕ) where
    module _ (d : Document) (owned : is_owned d.id user_id knowledge_base_id d ≡ true) (rows : Rows)
        (fresh : owned_document b d.id user_id knowledge_base_id rows ≡ none) where
      abbrev pub added : Rows
      added = add_row b user_id knowledge_base_id d rows

      -- Where the committed rows may end.
      abbrev pub Lands : Rows → Type 0
      Lands c =
          (c ≡ rows)
          ⊎ (c ≡ added)
          ⊎ (c ≡ add_row b user_id knowledge_base_id (mark_failed d) rows)
          ⊎ (c ≡ add_row b user_id knowledge_base_id (mark_uploaded d) rows)

      marked-Lands :
          (found : Option Document) (t : Session X)
          → owned_document b d.id user_id knowledge_base_id t.working ≡ found
          → t.working ≡ t.committed
          → (t.committed ≡ rows) ⊎ (t.committed ≡ added)
          → Lands (mark_row b user_id knowledge_base_id d.id found t).1.committed
      unfolding mark_row
      marked-Lands none t e clean (inl old) = inl old
      marked-Lands none t e clean (inr new) = inr (inl new)
      marked-Lands (some f) t e clean (inl old) =
          let gone : owned_document b d.id user_id knowledge_base_id t.working ≡ none =
            subst (λ r. owned_document b d.id user_id knowledge_base_id r ≡ none)
              (sym (clean ∙ old)) fresh in
          absurd (cc)
      marked-Lands (some f) t e clean (inr new) =
          by_commit
            (commit b (on_rows b (change_row b user_id knowledge_base_id d.id mark_failed) t))
            (commit_cases (on_rows b (change_row b user_id knowledge_base_id d.id mark_failed) t))
        where
          by_commit :
              (p : Result Failure (Unit {0}) × Session X)
              → Committed (on_rows b (change_row b user_id knowledge_base_id d.id mark_failed) t) p
              → Lands (after_marking b user_id knowledge_base_id p).1.committed
          by_commit (ok u, s) (inl (_, done, _)) = inr (
              inr (
                inl (
                  done
                  ∙ ap (change_row b user_id knowledge_base_id d.id mark_failed) (clean ∙ new)
                  ∙ changed b user_id knowledge_base_id d owned rows mark_failed)))
          by_commit (err e, s) (inl (h, _, _)) = absurd (cc)
          by_commit (ok u, s) (inr (e, h, _)) = absurd (cc)
          by_commit (err e, s) (inr (_, _, same)) = inr (inl (same ∙ new))

      handle-Lands :
          (object_uploaded : Bool) (e : Failure) (t : Session X)
          → (t.committed ≡ rows) ⊎ (t.committed ≡ added)
          → Lands (handle b user_id knowledge_base_id d object_uploaded e t).1.committed
      unfolding handle recover_upload rollback
      handle-Lands object_uploaded (app_error a) t (inl old) = inl old
      handle-Lands object_uploaded (app_error a) t (inr new) = inr (inl new)
      handle-Lands true other_error t h = marked-Lands _ _ refl refl h
      handle-Lands false other_error t h = marked-Lands _ _ refl refl h

      finished-Lands :
          (t : Session X) (p : Result Failure (Unit {0}) × Session X)
          → t.committed ≡ added
          → t.working ≡ added
          → Committed (on_rows b (change_row b user_id knowledge_base_id d.id mark_uploaded) t) p
          → Lands (finished b user_id knowledge_base_id d p).1.committed
      unfolding finished
      finished-Lands t (ok u, s) c w (inl (_, done, _)) = inr (
          inr (
            inr (
              done
              ∙ ap (change_row b user_id knowledge_base_id d.id mark_uploaded) w
              ∙ changed b user_id knowledge_base_id d owned rows mark_uploaded)))
      finished-Lands t (err e, s) c w (inl (h, _, _)) = absurd (cc)
      finished-Lands t (ok u, s) c w (inr (e, h, _)) = absurd (cc)
      finished-Lands t (err e, s) c w (inr (_, _, same)) = handle-Lands true e s (inr (same ∙ c))

      -- How the first part of an upload ends.
      abbrev Sent : Result Failure (Unit {0}) × Session X → Type 0
      Sent p =
          ((p.0 ≡ ok tt) × (p.1.committed ≡ added) × (p.1.working ≡ added))
          ⊎ ((e : Failure) × (p.0 ≡ err e) × ((p.1.committed ≡ rows) ⊎ (p.1.committed ≡ added)))

      stored-Lands :
          (p : Result Failure (Unit {0}) × Session X)
          → Sent p
          → Lands (stored b user_id knowledge_base_id d p).1.committed
      unfolding stored finish_upload
      stored-Lands (ok u, t) (inl (_, c, w)) =
          finished-Lands t (finish_upload b user_id knowledge_base_id d t) c w
            (commit_cases (on_rows b (change_row b user_id knowledge_base_id d.id mark_uploaded) t))
      stored-Lands (err e, t) (inl (h, _, _)) = absurd (cc)
      stored-Lands (ok u, t) (inr (e, h, _)) = absurd (cc)
      stored-Lands (err e, t) (inr (_, _, c)) = handle-Lands false e t c

      module _ (content : List ℕ) where
        object-Sent :
            (t : Session X)
            → t.committed ≡ added
            → t.working ≡ added
            → Sent (outside b (b.put_object d.storage_key content d.content_type) t)
        object-Sent t c w = by_end (b.put_object d.storage_key content d.content_type t.external)
          where
            by_end : (p : Result Failure (Unit {0}) × X) → Sent (p.0, record t { external = p.1 })
            by_end (ok tt, x) = inl (refl, c, w)
            by_end (err e, x) = inr (e, refl, inr c)

        bucket-Sent :
            (t : Session X)
            → t.committed ≡ added
            → t.working ≡ added
            → Sent (
                continue_with
                  (λ _. outside b (b.put_object d.storage_key content d.content_type))
                  (outside b b.ensure_bucket t))
        bucket-Sent t c w = by_end (b.ensure_bucket t.external)
          where
            by_end :
                (p : Result Failure (Unit {0}) × X)
                → Sent (
                    continue_with
                      (λ _. outside b (b.put_object d.storage_key content d.content_type))
                      (p.0, record t { external = p.1 }))
            by_end (ok tt, x) = object-Sent (record t { external = x }) c w
            by_end (err e, x) = inr (e, refl, inr c)

        store_object-Sent :
            (t : Session X)
            → t.committed ≡ rows
            → t.working ≡ added
            → Sent (store_object b user_id knowledge_base_id d content t)
        unfolding store_object
        store_object-Sent t c w = by_end (commit b t) (commit_cases t)
          where
            by_end :
                (p : Result Failure (Unit {0}) × Session X)
                → Committed t p
                → Sent (
                    continue_with
                      (λ _. outside b b.ensure_bucket >>= λ _.
                        outside b (b.put_object d.storage_key content d.content_type))
                      p)
            by_end (ok u, s) (inl (_, done, same)) = bucket-Sent s (done ∙ w) (same ∙ w)
            by_end (err e, s) (inl (h, _, _)) = absurd (cc)
            by_end (ok u, s) (inr (e, h, _)) = absurd (cc)
            by_end (err e, s) (inr (_, _, same)) = inr (e, refl, inl (same ∙ c))

        -- Only the new row is added, processing, failed or uploaded, or nothing is.
        pub upload-Lands :
            (s : Session X)
            → s.committed ≡ rows
            → s.working ≡ rows
            → Lands
                (stored b user_id knowledge_base_id d (
                  store_object b user_id knowledge_base_id d content
                    (on_rows b (add_row b user_id knowledge_base_id d) s))).1.committed
        upload-Lands s c w = stored-Lands _ (
            store_object-Sent (on_rows b (add_row b user_id knowledge_base_id d) s) c
              (ap (add_row b user_id knowledge_base_id d) w))
