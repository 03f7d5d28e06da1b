-- ===== src/Lib.antt =====
-- yubikey-personalization: configuring and using YubiKeys over USB. The program is a library in two
-- layers and three tools. The low-level layer, ykcore/, sends a frame to the key in reports of eight
-- bytes, polls its status byte and reads responses of several reports. The personalization layer,
-- ykpers.c and its companions, builds the configuration that is sent: flags, fields, keys, NFC records,
-- each guarded by what the firmware of the key can do. The tools parse options into calls of both.
--
-- Prelude: names of the libraries, lists, tests and the laws of bits that the other files share.
--
-- Core: ykcore/ykcore.c.
--   Core.Io has the world of a call: a device behind a backend, a record of read, write and sleep that
--   stands for the backends ykcore/ykcore_*.c, and yk_errno. A call returns
--   a value, or zero with an error, or it is a fault, an access outside of a buffer that the caller
--   gave, or its fuel runs out. `Ensures` says what holds of the first two and excludes the others.
--   Core.Wait has yk_wait_for_key_status and yk_force_key_update. The fuel is one round for every
--   millisecond of the largest time limit, since every round sleeps at least one.
--   Core.Frame has yk_write_to_key and yk_endian_swap_16, Core.Response yk_read_from_key,
--   yk_get_status and yk_read_response_from_key, whose loop has one round of fuel for every byte of the
--   buffer and takes seven of them in a round. Core.Program has _yk_write with the writes on top of it,
--   yk_get_serial, yk_get_capabilities, yk_challenge_response and yk_open_key. The checksum
--   yubikey_crc16 of libyubikey is a parameter.
--
--   Core.Libusb has the backend ykcore/ykcore_libusb-1.0.c over the functions of libusb, a record; it fills
--   the interface of a backend and of the opening of devices.
--
-- Pers: ykpers.c and ykpers_lcl.c.
--   Pers.Types has the structures and codes, Pers.Capability the tests on the firmware,
--   Pers.Command ykp_create_config to ykp_configure_for, Pers.Flags the setters and getters of flags,
--   Pers.Fields the byte fields and the moving factor, Pers.Keys keys from bytes and texts,
--   Pers.Passphrase keys from passphrases, Pers.Ndef the records for NFC and the settings of a device,
--   Pers.Modes the tables of flags and what an export names, Pers.Export the text of the legacy
--   export and its writing. Pers.Json has ykpers-json.c, as built with json_object_object_get_ex: the export,
--   and the import in Pers.Json.Import, over the functions of json-c, a record with laws; Pers.Formats has
--   the functions that choose the format;
--   Pers.Json.Objects says what an exported object holds under a key, Pers.Json.Kept which bits of the
--   flags survive in each mode. A setter maps a configuration and
--   ykp_errno to its return value and both; the null pointer is `none`. Bytes are numbers, with the
--   wrap-around written out where the code can overflow.
--
-- Pbkdf2: ykpbkdf2.c, over any pseudorandom function. What the array of the inner loop holds at first is
-- a parameter.
--
-- Args: ykpers-args.c. Args itself has the decoding of option texts. Args.State has the variables of
--   args_to_config, Args.Names the flags that options name, Args.Options the cases of its switch and
--   Args.Parse the option -o, the loop and what is done behind it. The results of getopt are a list and
--   what sscanf finds is a parameter; an option either goes on with new variables or returns. The places
--   of random bytes are functions from a position to a byte, which never end. Args.Parse.Steps to
--   Args.Parse.Finish carry an invariant, a record of laws, through all cases of the switch, for
--   Args.Parse.Aim, Args.Parse.Exclusive and Args.Parse.Update.
--
-- Tool: ykpersonalize.c from the accepted options to the write, and set_oath_id of ykpers-args.c. The
--   answers are the lines of standard input. The end of a call is true, or false where the user calls the
--   write off; a failure is where main goes to its label err with an error. Tool.Files has the options -i and
--   -s, over what files hold, which of them open and how much is written, and `personalize`, which is
--   all of it.
--
-- Chalresp: ykchalresp.c. The options choose, the challenge is taken from the time, a file, standard input
--   or the operand, and what is shown is made of the response. getopt, atoi, files and libyubikey are
--   parameters.
--
-- Info: ykinfo.c. The options choose, and a call that succeeds gives the lines that are printed. Vendor and
--   product of the key, yk_get_key_vid_pid, are a parameter.
--
-- Version: ykpers-version.c. A text is the list of its characters before the zero at its end; the loop is on
--   fuel, one more than the length of the first text, of which every round takes a digit. The version of
--   the build is a parameter.
--
-- Tests: runs on concrete inputs, and every theorem below at a concrete input.
--
-- Not modelled: the other backends, which are a parameter, and the copies of SHA and HMAC code (sha1.c, sha224-256.c, sha384-512.c,
-- usha.c, hmac.c), which are parameters; the texts of errors; the accessors of ykcore/ykstatus.c;
-- the opening and closing of the key in ykpersonalize.c;
-- the opening and closing of the key in ykchalresp.c and ykinfo.c, and what ykinfo.c printed before it
-- fails; thread-local storage of error numbers; the wiping of buffers and
-- what else is printed.
pub mod Prelude
pub mod Core
pub mod Pers
pub mod Pbkdf2
pub mod Args
pub mod Tool
pub mod Chalresp
pub mod Info
pub mod Version
pub mod Tests
