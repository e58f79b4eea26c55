-- ===== src/Scheduler/Tests.antt =====
-- The scheduler run with two workers: the first posts a request and yields, and a poll completes it.
use disaggregate_metadata_se.Base.{
  ℕ, ◌<◌, ◌≡◌, ◌⊎◌, refl, true, false, List, [], ◌∷◌, ◌==◌, if◌then◌else◌, mem, arith,
}
use disaggregate_metadata_se.Base.Run.{ok, Returns, ReturnsOrAborts}
use disaggregate_metadata_se.Scheduler.{
  Scheduler, Status, Cq, new_scheduler, add_pending_qp, link_loop, loop_link_coroutine,
  run_coroutine, unlink, yield_coro, poll_completion,
}
use disaggregate_metadata_se.Scheduler.Ring.{IsRing}
use disaggregate_metadata_se.Scheduler.Awake.{Tracks, post-Tracks}
use disaggregate_metadata_se.Scheduler.World.{World, one_more, Awaits}
use disaggregate_metadata_se.Scheduler.Steps.{
  fresh_world, start, then_step, posts, yields, linked, linked-Tracks, Yielded, yield-Yielded,
  Polls, poll_completion-Polls, no_lost_wakeup,
}

abbrev workers : List ℕ
workers = 1 ∷ 2 ∷ []

abbrev posted : Scheduler
posted = add_pending_qp (linked 2) 1 5

running : (linked 2).is_wait_poll 1 ≡ false
unfolding loop_link_coroutine link_loop new_scheduler
running = refl

posted-Tracks : Tracks posted workers workers
posted-Tracks =
    post-Tracks (linked 2) workers workers (linked-Tracks 2 (omega arith)) 1 5 refl running

posted_running : posted.is_wait_poll 1 ≡ false
unfolding loop_link_coroutine link_loop new_scheduler add_pending_qp
posted_running = refl

posted_pending : 0 < posted.pending_counts 1
unfolding loop_link_coroutine link_loop new_scheduler add_pending_qp
posted_pending = omega arith

yield-Yielded_example : Returns (yield_coro posted 1) (Yielded workers 1)
yield-Yielded_example =
    yield-Yielded posted workers workers 1 posted-Tracks refl posted_running posted_pending

abbrev cq : Cq
cq = λ qp. if qp == 5 then record { status = Status.success; wr_id = 1 } ∷ [] else []

poll_completion-Polls_example : ReturnsOrAborts (poll_completion cq posted) (Polls workers)
poll_completion-Polls_example = poll_completion-Polls workers posted workers cq posted-Tracks

abbrev yielded : ℕ × Scheduler
yielded = (2, run_coroutine (unlink posted 1) 2)

yield_run : yield_coro posted 1 ≡ ok yielded
unfolding yield_coro loop_link_coroutine link_loop new_scheduler add_pending_qp
yield_run = refl

abbrev after_post : World
after_post = record (fresh_world 2) { sched = posted; posted = one_more (λ q c. 0) 5 1 }

abbrev waiting : World
waiting = record after_post { sched = yielded.1 }

no_lost_wakeup_example :
    (ys : List ℕ) × IsRing waiting.sched ys
    × ((mem 1 ys ≡ true)
        ⊎ ((waiting.sched.is_wait_poll 1 ≡ true)
            × (0 < waiting.sched.pending_counts 1)
            × Awaits waiting 1))
no_lost_wakeup_example =
    no_lost_wakeup 2 1 waiting (omega arith)
      (then_step after_post waiting
        (then_step (fresh_world 2) after_post start (posts 1 5 refl running))
        (yields 1 yielded refl yield_run))
      refl
