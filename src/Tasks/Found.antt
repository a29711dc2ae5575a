-- ===== src/Tasks/Found.antt =====
-- A thread that is added to the tables of core/src/task.rs is found with what it belongs to.
use vegar.Prelude.{◌≡◌, ◌∙◌, arith, ok}
use vegar.Tasks.Tables.{
  WeakMap, Thread, Tables, add_thread_to_table, get_thread, get_process, get_process_group,
  get_session,
}
use vegar.Tasks.Closed.{Fits}
use vegar.Tasks.Steps.{Reach, adds, next, get-add_thread_to_table, Reach-finds}

module _ (W : WeakMap) where
  -- The calls find the thread, its process, its group and its session.
  pub record IsFound (t : Tables W) (th : Thread) : Type 0 where
    pub thread : get_thread W t th.tid ≡ ok th
    pub process : get_process W t th.process.pid ≡ ok th.process
    pub process_group : get_process_group W t th.process.group.pgid ≡ ok th.process.group
    pub session : get_session W t th.process.group.session ≡ ok th.process.group.session

  pub added_IsFound :
      (t : Tables W) (th : Thread)
      → Reach W t
      → Fits W t th
      → Reach W (add_thread_to_table W th t) × IsFound (add_thread_to_table W th t) th
  added_IsFound t th reached fits =
      let u = add_thread_to_table W th t in
      let there : get_thread W u th.tid ≡ ok th =
        get-add_thread_to_table W th t th.tid ∙ ground arith in
      let reached' : Reach W u = next t u reached (adds th fits) in
      let (p, g, s) = Reach-finds W u reached' th.tid th there in
      (reached', record { thread = there; process = p; process_group = g; session = s })
