-- ===== src/Tests/Answering.antt =====
-- The dispatcher at work on the test driver.
use wificx_skeleton.Prelude.{◌≡◌, refl, true, [], ◌∷◌, some, arith}
use wificx_skeleton.Platform.{success, nt_success, get_statistics, task_close, bss_entry_list}
use wificx_skeleton.FakeChip.Contract.{fake_ops-IsLocal}
use wificx_skeleton.Tlv.{indicate_tlv}
use wificx_skeleton.Tlv.Indications.{frees, sent, indicate_tlv_lem}
use wificx_skeleton.Handlers.{dispatch}
use wificx_skeleton.Handlers.Acknowledged.{answers}
use wificx_skeleton.Handlers.Answers.{dispatch_acknowledges}
use wificx_skeleton.Handlers.Statistics.{dispatch-statistics}
use wificx_skeleton.Tests.{system, ops, stack_buffer, driver, command, message_of}

dispatch_acknowledges_example :
    answers (dispatch system ops (command task_close) driver).log
    ≡ (success, 16, message_of 2 8) ∷ []
dispatch_acknowledges_example =
    dispatch_acknowledges system ops (command task_close) driver refl (omega arith)
      (fake_ops-IsLocal system stack_buffer stack_buffer)

-- The request came on port 2 under transaction 8; the answer names the generator's 9 and 99.
dispatch-statistics_example :
    let d' = dispatch system ops (command get_statistics) driver in
    (answers d'.log ≡ (success, 16, message_of 9 99) ∷ []) × (frees d'.log ≡ 1)
dispatch-statistics_example =
    dispatch-statistics system ops (command get_statistics) driver (message_of 9 99) refl refl

indicate_tlv_lem_example :
    let (status, d') = indicate_tlv system bss_entry_list 1 0 (some (message_of 9 99)) 16 driver in
    (frees d'.log ≡ 1)
    × (nt_success status ≡ true)
    × (sent d'.log ≡ (bss_entry_list, message_of 1 0) ∷ [])
indicate_tlv_lem_example = indicate_tlv_lem system bss_entry_list 1 0 (message_of 9 99) 16 driver
