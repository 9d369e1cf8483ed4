-- ===== src/Tools/Frozen.antt =====
-- A published post is out of the reach of the tools.
use social.Prelude.{String, some, ◌≡◌, inl, inr, refl, Option-cases}
use social.Table.{find?}
use social.Model.{Db, Time, ScheduledPost, published}
use social.Model.Status.{is_published, is_failed, is_archived}
use social.Model.Errors.{Error, Result, err}
use social.Exec.{Env, Sys}
use social.Post.{get_post}
use social.Post.Statements.{has_id}
use social.Tools.{Fields, mcp_update, mcp_publish, mcp_schedule, mcp_archive, reject_if}

-- A failure that leaves the tables as they were.
abbrev pub Refused : {A : Type 0} → Db → Result A × Sys → Type 0
Refused db out = ((e : Error) × (out.0 ≡ err e)) × (out.1.db ≡ db)

-- The post of an identifier is published.
abbrev pub IsPublished : String → Db → Type 0
IsPublished id db =
    (p : ScheduledPost) × ((find? (has_id id) db.posts ≡ some p) × (p.status ≡ published))

-- A published post can be neither updated nor published again, scheduled or archived: each of these
-- tools fails and leaves the tables as they were.
pub published_post-Refused :
    (id : String) (fields : Fields) (at : Time) (env : Env) (s : Sys)
    → IsPublished id s.db
    → Refused s.db (mcp_update id fields env s)
      × Refused s.db (mcp_publish id env s)
      × Refused s.db (mcp_schedule id at env s)
      × Refused s.db (mcp_archive id env s)
unfolding mcp_update mcp_publish mcp_schedule mcp_archive get_post is_published is_failed
    is_archived reject_if
published_post-Refused id fields at env s (p, (found, done)) =
    elim (Option-cases (env.db_fault s.tick)) [
      | inl f ↦ rw f (
          rw found
            (rw done (((_, refl), refl), ((_, refl), refl), ((_, refl), refl), ((_, refl), refl))))
      | inr (m, f) ↦
          rw f (((_, refl), refl), ((_, refl), refl), ((_, refl), refl), ((_, refl), refl))
    ]
