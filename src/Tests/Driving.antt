-- ===== src/Tests/Driving.antt =====
-- Commands and workitems at work on the test driver.
use mathlib.Core.List.{Sublist}
use wificx_skeleton.Prelude.{◌+◌, ◌≡◌, refl, true, inl, [], ◌∷◌, ◌++◌, length, arith}
use wificx_skeleton.Platform.{task_scan, task_connect}
use wificx_skeleton.TaskQueue.Counters.{IsValid}
use wificx_skeleton.FakeChip.{fake_ops}
use wificx_skeleton.Device.{scan_work, reset_work, radio_work, connect_work}
use wificx_skeleton.Device.Effects.{IsDisciplined, IsBackend}
use wificx_skeleton.FakeChip.Contract.{fake_ops-IsBackend, fake_ops-IsLocal}
use wificx_skeleton.Handlers.{dispatch}
use wificx_skeleton.WorkItems.Completing.{completion}
use wificx_skeleton.WorkItems.{zero_task, zero_scan_task, zero_radio_task, zero_connect_task}
use wificx_skeleton.WorkItems.Kinds.{waiting, due_of, completed_of, runs, work_item}
use wificx_skeleton.WorkItems.Completion.{work_item-completes}
use wificx_skeleton.WorkItems.Conservation.{work_item-conserves, work_item-IsDisciplined}
use wificx_skeleton.WorkItems.Shortage.{work_item-drains, work_item-forgets}
use wificx_skeleton.Sessions.{issue, run, session}
use wificx_skeleton.Sessions.Admission.{admitted, dispatch-admitted}
use wificx_skeleton.Sessions.Accounts.{accounted-session}
use wificx_skeleton.Sessions.Completion.{settled-session}
use wificx_skeleton.Sessions.Losses.{session-sublist}
use wificx_skeleton.Tests.{
  system, starved, ops, starved_ops, stack_buffer, driver, command, one_of_16-IsValid,
  one_of_8-IsValid, scan_task_7, task_7, radio_task_7, connect_task_7,
}

dispatch-admitted_example :
    let r = command task_connect in
    let d' = dispatch system ops r driver in
    (waiting connect_work d' ≡ waiting connect_work driver ++ admitted system connect_work r driver)
    × (runs connect_work d'.log
        ≡ length (admitted system connect_work r driver) + runs connect_work driver.log)
    × (completed_of connect_work d' ≡ completed_of connect_work driver)
    × IsValid 8 d'.connect_queue
    × (d'.radio_on ≡ true)
dispatch-admitted_example =
    dispatch-admitted system ops connect_work (command task_connect) driver
      (fake_ops-IsLocal system stack_buffer stack_buffer)
      (one_of_8-IsValid zero_connect_task connect_task_7)

settled-session_example :
    let ts = issue (command task_connect) ∷ run scan_work 4 ∷ run connect_work 1 ∷ [] in
    let d' = work_item system ops connect_work 16 (session system ops ts driver) in
    (waiting connect_work d' ≡ [])
    × (completed_of connect_work d' ≡ completion 1 7 ∷ completion 2 8 ∷ [])
settled-session_example =
    settled-session system ops connect_work
      (issue (command task_connect) ∷ run scan_work 4 ∷ run connect_work 1 ∷ []) 16 driver
      (λ call size. refl) (fake_ops-IsBackend system stack_buffer stack_buffer)
      (fake_ops-IsLocal system stack_buffer stack_buffer)
      (one_of_8-IsValid zero_connect_task connect_task_7) (omega arith)

accounted-session_example :
    let d' =
      session starved starved_ops
        (issue (command task_scan) ∷ run reset_work 4 ∷ run scan_work 4 ∷ [])
        driver in
    (due_of scan_work d' ≡ completion 1 7 ∷ completion 2 8 ∷ []) × IsValid 16 d'.scan_queue
accounted-session_example =
    accounted-session starved starved_ops scan_work
      (issue (command task_scan) ∷ run reset_work 4 ∷ run scan_work 4 ∷ []) driver (inl refl)
      (fake_ops-IsBackend starved stack_buffer stack_buffer)
      (fake_ops-IsLocal starved stack_buffer stack_buffer)
      (one_of_16-IsValid zero_scan_task scan_task_7)

session-sublist_example :
    let d' =
      session starved starved_ops
        (issue (command task_connect) ∷ run connect_work 4 ∷ run scan_work 4 ∷ [])
        driver in
    Sublist (due_of connect_work d') (completion 1 7 ∷ completion 2 8 ∷ [])
    × IsValid 8 d'.connect_queue
session-sublist_example =
    session-sublist starved starved_ops connect_work
      (issue (command task_connect) ∷ run connect_work 4 ∷ run scan_work 4 ∷ []) driver
      (fake_ops-IsBackend starved stack_buffer stack_buffer)
      (fake_ops-IsLocal starved stack_buffer stack_buffer)
      (one_of_8-IsValid zero_connect_task connect_task_7)

work_item-completes_example :
    let d' = work_item system ops scan_work 4 driver in
    (waiting scan_work d' ≡ []) × (completed_of scan_work d' ≡ completion 1 7 ∷ [])
work_item-completes_example =
    work_item-completes system ops scan_work 4 driver (λ call size. refl)
      (fake_ops-IsBackend system stack_buffer stack_buffer)
      (one_of_16-IsValid zero_scan_task scan_task_7) (omega arith)

work_item-conserves_example :
    let d' = work_item starved starved_ops reset_work 4 driver in
    (due_of reset_work d' ≡ completion 1 7 ∷ []) × IsValid 16 d'.reset_queue
work_item-conserves_example =
    work_item-conserves starved starved_ops reset_work 4 driver (inl refl)
      (fake_ops-IsBackend starved stack_buffer stack_buffer) (one_of_16-IsValid zero_task task_7)

work_item-drains_example :
    waiting radio_work (work_item starved starved_ops radio_work 4 driver) ≡ []
work_item-drains_example =
    work_item-drains starved starved_ops radio_work 4 driver refl
      (fake_ops-IsBackend starved stack_buffer stack_buffer)
      (one_of_16-IsValid zero_radio_task radio_task_7) (omega arith)

work_item-forgets_example :
    let d' = work_item starved starved_ops connect_work 4 driver in
    (waiting connect_work d' ≡ []) × (completed_of connect_work d' ≡ [])
work_item-forgets_example =
    work_item-forgets starved starved_ops connect_work 4 driver (λ call size. refl)
      (fake_ops-IsBackend starved stack_buffer stack_buffer)
      (one_of_8-IsValid zero_connect_task connect_task_7) (omega arith)

work_item-IsDisciplined_example : IsDisciplined (work_item system ops radio_work 4 driver).log
work_item-IsDisciplined_example =
    work_item-IsDisciplined system ops radio_work 4 driver
      (fake_ops-IsBackend system stack_buffer stack_buffer) tt

fake_ops-IsBackend_example : IsBackend (fake_ops system stack_buffer stack_buffer)
fake_ops-IsBackend_example = fake_ops-IsBackend system stack_buffer stack_buffer
