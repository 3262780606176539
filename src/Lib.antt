-- ===== src/Lib.antt =====
-- A model of the WiFiCx skeleton driver: a Windows WLAN client driver between the WDI side of the OS and
-- a chip backend, with a fake backend that stands in for hardware.
--
-- The driver at work. WdiDispatchCommand (wdihandlers.cpp) takes a WDI command, runs its handler and
-- answers at once. The handlers of SCAN, CONNECT, DISCONNECT, DOT11_RESET and SET_RADIO_STATE also put
-- a task into one of five ring queues of MTK_DEVICE (device.h) and enqueue a workitem. The workitems
-- (device.cpp) drain the queues: they call the chip backend through WDI_CHIP_OPS (wdi_chip_ops.h) and
-- send the indication that completes the task (wdi_tlv.cpp). A scan fills the scan cache
-- (wdi_scan_cache.cpp), which the scan workitem reports; a connect makes the backend report an
-- association (wdi_connect.cpp).
--
-- Before and after. DriverEntry and EvtDriverDeviceAdd (driver.cpp) make the device,
-- EvtDevicePrepareHardware (device.cpp) announces its capabilities, makes the workitems and the scan
-- cache and starts the chip backend, and EvtWiFiDeviceCreateAdapter (wifidevice.cpp, adapter.cpp)
-- makes the network adapter. EvtDeviceReleaseHardware takes the hardware down. The packet queues
-- (txqueue.cpp, rxqueue.cpp) move no packet and only hand theirs back.
--
-- Which file models what:
--   Platform, Platform/System   what the driver takes from the system: status codes, headers, and the
--                               calls of WDF, WiFiCx and the TLV library as fields of `System`
--   Device                      MTK_DEVICE with the fake chip's globals, the request's buffer and a log
--                               of what has happened and of the pool blocks in use (`Driver`), and
--                               WDI_CHIP_OPS (`ChipOps`)
--   Device/Effects              what a step may do to the log, and what a backend promises
--   Handlers and below          wdihandlers.cpp: the dispatcher and every handler
--   TaskQueue and below         the ring queues, alone, as lists of bounded length (a quotient), and with
--                               dispatcher and workitem interleaved
--   WorkItems and below         the workitem callbacks of device.cpp, and WdiEmitBssEntryList
--   Tlv, Connect                wdi_tlv.cpp and wdi_connect.cpp
--   ScanCache and below         wdi_scan_cache.cpp
--   Frame and below, Mmpdu      wdi_frame.cpp and wdi_frame.h, wdi_mmpdu.cpp
--   Keys                        wdi_keys.cpp
--   FakeChip, FakeKeys, FakeAssoc, FakeBss   chip_fake.cpp and chip_fake_bss.cpp; FakeChip/Scan and
--                               FakeChip/Association put the chip under the workitems of device.cpp
--   Framework and below         the calls of WDF, NetAdapterCx and WiFiCx while a device comes up (`Call`),
--                               the device with its handles (`Machine`), and the chains of calls that
--                               GOTO_IF_NOT_NT_SUCCESS (trace.h) makes, against plans
--   DriverEntry and below       driver.cpp, and the way from a new device to its sessions
--   Hardware and below          MtkInitializeHardware, EvtDevicePrepareHardware and
--                               EvtDeviceReleaseHardware of device.cpp
--   Adapter and below           wifidevice.cpp, adapter.cpp, power.cpp
--   Datapath and below          txqueue.cpp, rxqueue.cpp
--   Sessions and below          commands and runs of the workitems in any order, over all five queues
--   Prelude, Tests              shared notation and lemmas; small instances
--
-- The functions keep the names of the source in lower case: `indicate_tlv` is WdiIndicateTlv,
-- `scan_work_item` is EvtScanCompleteWorkItem, `scan_round` one round of its loop. A function that
-- changes the device takes a `Driver` and returns one. Calls whose outcome may differ from one time to
-- the next (WdfMemoryCreate, ExAllocatePool2, KeQueryTickCount) take the number of earlier calls, so
-- every pattern of failures is covered; what the framework answers to a call (`Framework`) is any
-- function of the calls before it. 32-bit counters and signal strengths are bit patterns with
-- their wrap written out.
--
-- Fuel. A workitem's loop gets fuel for its rounds; as many rounds as tasks wait are enough, so 16 or 8
-- always are. WdiIeFind gets one more than the buffer's length, which every step shortens. The walk
-- over a packet ring gets the ring's size.
--
-- Assumptions. A handler or a workitem runs as one step, but in TaskQueue/Race, where the steps of a
-- dispatcher and of a workitem mix. A backend keeps `IsBackend` and `IsLocal`, as the fake chip does.
--
-- Not modelled: traces and debug output, with the registry values that only go there; the constant fields
-- of the parameters that go to the TLV generators; WDF's objects, which the framework keeps and
-- frees; releases of memory other than generated buffers, scan caches, the blocks for BSS lists and
-- association results, and the rings of the packet queues; build and install files.
pub mod Adapter
pub mod Connect
pub mod Datapath
pub mod Device
pub mod DriverEntry
pub mod FakeAssoc
pub mod FakeBss
pub mod FakeChip
pub mod FakeKeys
pub mod Frame
pub mod Framework
pub mod Handlers
pub mod Hardware
pub mod Keys
pub mod Mmpdu
pub mod Platform
pub mod Prelude
pub mod ScanCache
pub mod Sessions
pub mod TaskQueue
pub mod Tests
pub mod Tlv
pub mod WorkItems
