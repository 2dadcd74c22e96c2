-- ===== src/Lib.antt =====
-- tdoa: firmware of an ultra-wideband positioning system on the DWM1001-DEV board.
--
-- A board is a tag or an anchor. Its settings live in a configuration store on flash
-- (src/config.c, include/config.h); the ultra-wideband part (src/uwb*.c, include/uwb.h,
-- include/mac.h) reads them at the start and runs the algorithm of the mode: the anchor sends its
-- position from time to time, the tag listens. The library models these parts.
--
-- Base: lists measured by native numbers, objects of C as lists of bytes (read_at, write_at,
-- little-endian numbers), `|` as a sum, the small results of type int, tests. A function returns
-- an Option; none is undefined behaviour, an access outside an object or through a null pointer.
--
-- Config, src/config.c.
--   Platform: flash device, NVS and crc32_ieee, parameters (record Platform) with the documented
--     behaviour of NVS that the results rest on (record Durable).
--   State: the static data (_buffer, tlv, fs, and the flash itself), the constants, the accesses.
--   Tlv: find_field, config_field_size, read_value, insert_value, append_value. The loop of
--     find_field takes fuel, one more than the length of the area; each round moves on by two bytes
--     or more, so the fuel never ends the loop. Tlv.Store is the abstract list of entries with
--     lookup and upsert, Tlv.Encoded the buffer that holds such a list.
--   Save: write_crc, check_magic, check_crc, check_data, read_buffer, write_value, config_refresh,
--     config_erase, config_buffer. write_value is cut in three: put_value, save_value, the whole.
--     Save.Malformed is a write over contents that are no list of entries.
--     Save.Pauses is write_value where other threads run before its checksum or in its sleep,
--     Save.Begun write_value cut in two by its sleep.
--   Init: flash_init, write_defaults, config_init. ensure_entry, write_header and load_config are
--     parts of them.
--     Init.Sleeps is config_init with its three calls of k_msleep, each a point where another thread
--     may change the store; Init.Quiet, Init.Meanwhile and
--     Init.Begun are about it. A write of another thread sleeps as long as they do, so one that
--     begins in a sleep ends after it.
--     Init.Bounded and Init.Total take any contents of flash; Tlv.Total is the reads over them.
--     Init.Restart is flash_init of a board that starts over a saved store, with what it relies on
--     of a mount (record Restarts); Init.First is config_init over a flash without a configuration.
--   Api: the 24 typed accessors. A float is its bit pattern, an array a list of numbers. Api.Laws,
--     Api.Arrays, Api.Order and Api.Refused are what their callers may rely on.
--   Interface: include/config.h as a record of operations (ConfigApi) and src/config.c as one.
--     Interface.View is the abstract store, a value or none for each field.
--
-- Uwb, src/uwb.c, src/uwb_utils.c, include/mac.h, src/uwb_anchor.c, src/uwb_tag.c, src/uwb_dummy.c.
--   Utils: timestamps. Mac: the packet of 151 bytes as its memory, Mac.Fields its fields as they are
--     logged. Types: include/uwb.h, with the pair of functions that an algorithm is.
--   Device: the constants and the set-up calls of dw1000/include/deca_device_api.h that are used.
--   Radio: the calls of the DW1000 driver, of the clock and of the random numbers are a log of
--     calls; what a call returns is a parameter and may depend on the log (record Radio, and
--     IsSound for what the driver promises of lengths and clocks).
--   Anchor: send_tx_packet, start_next_event, handle_rx_packet, anchor_on_event. A packet that the
--     code declares as a local variable begins with contents that are a parameter (Radio.stack).
--     Anchor.Report is what a received frame is reported as, Anchor.Rate the times of the packets
--     as the log of calls tells them, with what they need of the clock (record IsTimely).
--   Tag: tag_on_event and what it logs; Tag.Heard takes a packet from the anchor to the tag.
--   Dummy: dummy_on_event.
--   Core: uwb_init, uwb_mode_name and the table of algorithms; openspi and dwt_initialise may fail.
--     Core.Settings is what it makes of the store, Core.Unplaced of one with a mode
--     only, Core.Total of any contents, Core.Rates the SPI rates of its calls.
--   Loop: uwb_start, the callbacks, and uwb_loop over a list of what wakes the thread (Wake): a
--     timeout of the semaphore, or an interrupt with the callbacks that each dwt_isr calls. The
--     endless loop is its run over every finite list. Loop.Induction takes what every event keeps
--     to every run; Loop.Safe and Loop.Pace are its instances.
--   Thread: the same thread against its interrupt, in any order: the line of the device, uwb_isr,
--     the semaphore (record Semaphore, with IsBinary for what Zephyr promises), and the waits and
--     calls of the thread, as a step relation and its reachable states, with a step for a handler
--     that leaves an object. Thread.History reads from such steps the wakes of Loop.
--
-- Main, src/main.c: config_init, uwb_init, uwb_start. Main.Total starts it over any flash,
--   Main.Boot over a saved store, Main.Provision over the store that a session of the shell leaves,
--   Main.First over none.
--   Main.Sleeps is main with its sleep and those of config_init. In the sleeps before tlv.data is
--   set the shell runs whole lines (Main.Sleeps.Early), since no write gets as far as its own sleep
--   there; in that of write_defaults it begins a write (Main.Sleeps.Begun).
--
-- Cli, src/cli.c: the commands `config mode`, `config address`, `config anchor_position`,
--   `config dump`, `config print` and `config erase`, with the codes they return and what they
--   print on success. strtok_r is the list of its tokens, shell_strtoul a parameter. Cli.Saving has
--   the hypothesis under which the commands succeed: NVS takes every write. Cli.Shell is the table
--   of the commands; the shell that calls them is a parameter (record Shell, with IsZephyr).
--
-- Spi, dw1000/src/deca_spi.c, deca_mutex.c, deca_sleep.c and port.c: the buffers, the two rates and
--   the transfers of the vendor's driver, over a bus that is a parameter (Bus, FullDuplex). Spi.Port
--   is the interrupt line, as a log of the calls of the GPIO driver, and the two delays.
--
-- Machine integers are natural numbers with their wrap-around written out; size_t has 32 bits.
--
-- Not modelled: the Decawave driver in dw1000/ (a copy of the vendor's library: deca_device.c, its
-- tables and registers) above its SPI layer. What the program calls of it is in Uwb.Device and
-- Uwb.Radio, as calls whose results are parameters. Further: log output, the scheduling of the
-- kernel, the circular buffer of the Linux kernel that port.h copies and nothing uses, and
-- threads that cut a call of the store elsewhere than at its sleeps (Init.Sleeps, Save.Pauses) and
-- before the checksum of write_value. The sleep of config_refresh, before it does anything, is left
-- out.
pub mod Base
pub mod Config
pub mod Uwb
pub mod Main
pub mod Cli
pub mod Spi
pub mod Tests
