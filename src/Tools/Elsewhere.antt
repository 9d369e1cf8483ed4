-- ===== src/Tools/Elsewhere.antt =====
-- The tools on credentials, schedules and configurations leave a post as it is, and so does the
-- deletion of another post.
use social.Table.Single.{Single-delete}
use social.Prelude.{Bool, false, String, ltb, ◌&&◌, ◌||◌, ◌≡◌, str_eq}
use social.Model.{Time, ScheduledPost, PublicationSchedule}
use social.Model.Errors.{ok}
use social.Exec.Keeps.{StatementKeeps, Keeps, keeps_rules}
use social.Service.Laws.{Aside, After-guard}
use social.Service.Schedules.{mcp_create_schedule-Keeps, mcp_update_schedule-Keeps}
use social.Post.{delete_post, delete_post_steps}
use social.Post.Transaction.{in_tx-Keeps}
use social.Post.Statements.{
  has_id, logs_post, delete_post_row, delete_log_rows, reference_failed, unique_failed,
  is_credential,
}
use social.Credential.{delete_credential_row, uses_credential}
use social.Schedule.Statements.{
  insert_schedule_row, update_schedule_row, delete_schedule_row, set_slots, is_schedule,
  schedules_credential,
}
use social.Table.{count, delete}
use social.Tools.{Fields}
use social.Tools.Schedules.{mcp_create_schedule, mcp_update_schedule}
use social.Tools.Lasting.{Stays, insert_credential_row-Stays, update_credential_row-Stays}

module _ (post : ScheduledPost) (enforce : Bool) where
  delete_credential_row-Stays :
      (id : String) → StatementKeeps (Stays post) enforce (delete_credential_row id)
  unfolding delete_credential_row
  delete_credential_row-Stays id db h =
      After-guard (Stays post)
        (enforce
          && (ltb 0 (count (is_credential id) db.credentials)
              && ltb 0 (count (uses_credential id) db.posts)))
        reference_failed _ (record { there = h.there; same = h.same })

  insert_schedule_row-Stays :
      (s : PublicationSchedule) → StatementKeeps (Stays post) enforce (insert_schedule_row s)
  unfolding insert_schedule_row
  insert_schedule_row-Stays s db h =
      After-guard (Stays post)
        (ltb 0 (count (is_schedule s.id) db.schedules)
          || ltb 0 (count (schedules_credential s.credential_id) db.schedules))
        unique_failed _ (record { there = h.there; same = h.same })

  update_schedule_row-Stays :
      (s : PublicationSchedule) (at : Time)
      → StatementKeeps (Stays post) enforce (update_schedule_row s.id (set_slots s at))
  unfolding update_schedule_row
  update_schedule_row-Stays s at db h = record { there = h.there; same = h.same }

  delete_schedule_row-Stays :
      (id : String) → StatementKeeps (Stays post) enforce (delete_schedule_row id)
  unfolding delete_schedule_row
  delete_schedule_row-Stays id db h = record { there = h.there; same = h.same }

  pub aside-Stays : Aside enforce (Stays post)
  aside-Stays = record {
    insert_credential = insert_credential_row-Stays post enforce;
    update_credential = update_credential_row-Stays post enforce;
    delete_credential = delete_credential_row-Stays;
    delete_schedule = delete_schedule_row-Stays;
    elsewhere = λ db states log configs h. record { there = h.there; same = h.same };
  }

  pub create_schedule-Stays :
      (fields : Fields) → Keeps enforce (Stays post) (mcp_create_schedule fields)
  create_schedule-Stays fields =
      mcp_create_schedule-Keeps insert_schedule_row-Stays update_schedule_row-Stays fields

  pub update_schedule-Stays :
      (slug : String) (fields : Fields)
      → Keeps enforce (Stays post) (mcp_update_schedule slug fields)
  update_schedule-Stays slug fields =
      mcp_update_schedule-Keeps insert_schedule_row-Stays update_schedule_row-Stays slug fields

  delete_log_rows-Stays : (id : String) → StatementKeeps (Stays post) enforce (delete_log_rows id)
  unfolding delete_log_rows
  delete_log_rows-Stays id db h = record { there = h.there; same = h.same }

  module _ (id : String) (other : str_eq post.id id ≡ false) where
    delete_post_row-Stays : StatementKeeps (Stays post) enforce (delete_post_row id)
    unfolding delete_post_row has_id
    delete_post_row-Stays db h =
        let one = Single-delete (λ r. r.id) post id db.posts other (h.there, h.same) in
        After-guard (Stays post)
          (enforce
            && (ltb 0 (count (has_id id) db.posts) && ltb 0 (count (logs_post id) db.delivery_log)))
          reference_failed
          (ok (record db { posts = delete (has_id id) db.posts }, count (has_id id) db.posts))
          (record { there = one.0; same = one.1 })

    delete_post_steps-Stays : Keeps enforce (Stays post) (delete_post_steps id)
    unfolding delete_post_steps
    delete_post_steps-Stays = search (keeps_rules, delete_log_rows-Stays, delete_post_row-Stays)

    pub delete_post-Stays : Keeps enforce (Stays post) (delete_post id)
    unfolding delete_post
    delete_post-Stays =
        in_tx-Keeps enforce (Stays post) (delete_post_steps id) delete_post_steps-Stays
