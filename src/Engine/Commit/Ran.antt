-- ===== src/Engine/Commit/Ran.antt =====
-- What running a statement does to a database, and the statements that a log replays.
use super_db.Engine.Outcome.{background}
use super_db.Engine.Commit.{
  Engine, Database, Answer, apply, error_of, exec_with_options, finish, publish, persisted, replace,
  commit_from, clone_image, conflict, add_revision, is_read_only, done, failed, commit_from,
  replace, conflict,
}
use super_db.Prelude.{
  Text, List, Bool, Option, none, some, true, false, ◌∷◌, [], ◌++◌, ◌≡◌, ◌⊎◌, refl, ap, ◌∙◌, sym,
  inl, inr, Bool-cases, not, ◌==◌,
}
use mathlib.Core.Path.{subst}

module _ {D R E : Type 0} (engine : Engine D R E) where
  -- The statements run one after the other without an error, from the first tables to the last.
  abbrev pub Runs : D → List Text → D → Type 0
  Runs d [] t = d ≡ t
  Runs d (sql ∷ sqls) t = ((apply engine d sql).1 ≡ none) × Runs (apply engine d sql).0 sqls t

  pub Runs-append :
      (d m t : D) (xs ys : List Text) → Runs d xs m → Runs m ys t → Runs d (xs ++ ys) t
  Runs-append d m t [] ys e r = subst (λ (x : D). Runs x ys t) (sym e) r
  Runs-append d m t (sql ∷ xs) ys (h, r) r' = (h, Runs-append (apply engine d sql).0 m t xs ys r r')

  -- What running a statement does to a database: it stays, or the statement is one that writes.
  abbrev pub Same : Database D → Database D → Type 0
  Same d d' =
      (d'.tables ≡ d.tables) × (d'.revision ≡ d.revision) × (d'.base_revision ≡ d.base_revision)

  abbrev pub Wrote : Database D → Text → Database D → Type 0
  Wrote d sql d' =
      Runs d.tables (sql ∷ []) d'.tables
      × (d'.revision ≡ add_revision d.revision)
      × (d'.base_revision ≡ d.base_revision)

  abbrev pub Ran : Database D → Text → Database D × Answer R E → Type 0
  Ran d sql (d', failed e) = Same d d'
  Ran d sql (d', done r) =
      ((is_read_only sql ≡ true) × Same d d') ⊎ ((is_read_only sql ≡ false) × Wrote d sql d')

  module _
      (read_same : (d : D) (sql : Text)
        → is_read_only sql ≡ true
        → (engine.exec background d sql).0 ≡ d)
      (failed_same : (d : D) (sql : Text) (e : E)
        → (apply engine d sql).1 ≡ some e
        → (apply engine d sql).0 ≡ d) where
    applied :
        (d : D) (sql : Text) (x : D × Answer R E)
        → engine.exec background d sql ≡ x
        → apply engine d sql ≡ error_of x
    unfolding apply
    applied d sql x h = ap error_of h

    finish-Ran :
        (d : Database D) (sql : Text) (x : D × Answer R E)
        → engine.exec background d.tables sql ≡ x
        → Ran d sql (finish ⦃engine = engine⦄ d (not (is_read_only sql)) x)
    unfolding finish publish error_of
    finish-Ran d sql (t, failed e) h =
        let e' : apply engine d.tables sql ≡ (t, some e) = applied d.tables sql (t, failed e) h in
        (
          sym (ap (λ (p : D × Option E). p.0) e')
              ∙ failed_same d.tables sql e (ap (λ (p : D × Option E). p.1) e'),
          refl,
          refl,
        )
    finish-Ran d sql (t, done r) h =
        let e' : apply engine d.tables sql ≡ (t, none) = applied d.tables sql (t, done r) h in
        elim (Bool-cases (is_read_only sql)) [
          | inl b ↦ rw b (
              inl (
                refl,
                (sym (ap (λ (p : D × Answer R E). p.0) h) ∙ read_same d.tables sql b, refl, refl),
              ))
          | inr b ↦ rw b (
              inr (
                refl,
                (
                  (ap (λ (p : D × Option E). p.1) e', ap (λ (p : D × Option E). p.0) e'),
                  refl,
                  refl,
                ),
              ))
        ]

    pub exec_with_options-Ran :
        (early late : Option E) (d : Database D) (sql : Text)
        → Ran d sql (exec_with_options ⦃engine = engine⦄ early late background d sql)
    unfolding exec_with_options
    exec_with_options-Ran (some e) late d sql = (refl, refl, refl)
    exec_with_options-Ran none (some e) d sql = (refl, refl, refl)
    exec_with_options-Ran none none d sql =
        finish-Ran d sql (engine.exec background d.tables sql) refl

-- A clone of an older revision is refused, and nothing is persisted.
pub commit_from-conflict :
    {D W X : Type 0} (d source : Database D) (persist : Database D → W → W × Option X) (w : W)
    → (d.revision == source.base_revision) ≡ false
    → commit_from d source persist w ≡ (d, w, some conflict)
unfolding commit_from replace
commit_from-conflict d source persist w h = rw h refl

-- A clone of the present revision that is persisted becomes the database.
pub commit_from-published :
    {D W X : Type 0} (d source : Database D) (persist : Database D → W → W × Option X) (w w' : W)
    → (d.revision == source.base_revision) ≡ true
    → persist (clone_image source) w ≡ (w', none)
    → commit_from d source persist w ≡ (publish d source.tables, w', none)
unfolding commit_from replace persisted clone_image
commit_from-published d source persist w w' h p = rw (h, p) refl

module _ {D R E : Type 0} (engine : Engine D R E) where
  finish-tables :
      (db : Database D) (write : Bool) (x : D × Answer R E)
      → (finish ⦃engine = engine⦄ db write x).0.tables ≡ (error_of x).0
  unfolding finish error_of publish
  finish-tables db write (t, failed e) = refl
  finish-tables db true (t, done r) = refl
  finish-tables db false (t, done r) = refl

  pub tables-exec_with_options :
      (db : Database D) (sql : Text)
      → (exec_with_options ⦃engine = engine⦄ none none background db sql).0.tables
        ≡ (apply engine db.tables sql).0
  unfolding exec_with_options apply
  tables-exec_with_options db sql =
      finish-tables db (not (is_read_only sql)) (engine.exec background db.tables sql)
